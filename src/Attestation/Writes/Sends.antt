-- ===== src/Attestation/Writes/Sends.antt =====
-- The transactions that `_validate_write` of src/reliamesh/solana_attest.py lets through.
use reliamesh.Prelude.{
  ◌+◌, ◌≡◌, refl, sym, ◌∙◌, true, [], ◌∷◌, Text, text, text_dec, length, take, drop, all_chars,
  in_range, All, ltb, ◌==◌, not, ok, >>=-eq-ok, raise_if-ok, arith,
}
use reliamesh.Attestation.Base58.{
  Bytes, encode58, decode58, invalid_send_transaction, invalid_send_request,
}
use reliamesh.Attestation.Values.{Value, string, object, Members, Values, item, end}
use reliamesh.Attestation.Transaction.{
  Ed25519, check_commitment, load_key, build_transaction, decode64_value, max_transaction_bytes,
  memo_prefix,
}
use reliamesh.Attestation.Transaction.Binding.{IsBound, verify_wire-IsBound}
use reliamesh.Attestation.Transaction.Shape.{decode58_sound, decode58-IsByte}
use reliamesh.Attestation.Transaction.Signing.{
  IsEd25519, wire, signed, load_key-length, build_transaction-wire, decode64-wire, length-wire,
  commitment-wire, take-wire, signer-wire, verify_wire-wire,
}
use reliamesh.Attestation.Base58.RoundTrip.{IsByte}
use reliamesh.Attestation.Base64.{b64encode}
use reliamesh.Storage.Common.{is_hex}
use reliamesh.Attestation.Writes.{
  validate_write, validate_transaction, validate_send, is_send_config, prefix_size,
}

module _ (k : Ed25519) where
  validate_write-send :
      (params : Values) → validate_write k (text "sendTransaction") params ≡ validate_send k params
  unfolding validate_write text_dec
  validate_write-send params = refl

  validate_transaction-IsBound :
      (encoded : Value)
      → validate_transaction k encoded ≡ ok tt
      → (wire : Bytes) × (decode64_value max_transaction_bytes encoded ≡ ok wire)
        × IsBound k wire
            (drop 197 wire)
            (encode58 (take 64 (drop 1 wire)))
            (encode58 (take 32 (drop 69 wire)))
  unfolding validate_transaction
  validate_transaction-IsBound encoded h =
      let (wire, decoded, h1) = >>=-eq-ok (decode64_value max_transaction_bytes encoded) _ h in
      let (_, h2) =
        raise_if-ok (not (length wire == prefix_size + length memo_prefix + 64))
          invalid_send_transaction h1 in
      let (_, h3) =
        raise_if-ok (not (all_chars (λ c. ltb c 128) (drop 197 wire))) invalid_send_transaction
          h2 in
      (
        wire,
        decoded,
        verify_wire-IsBound k encoded wire (drop 197 wire) (encode58 (take 64 (drop 1 wire)))
            (encode58 (take 32 (drop 69 wire))) decoded h3,
      )

  -- A transaction that may be sent is one signature, and the message of one memo of a commitment of 64
  -- hexadecimal digits, which the one key that it names has signed: the wire has no other bytes.
  pub validate_write-IsBound :
      (encoded : Value) (config : Members)
      → validate_write k (text "sendTransaction") (item encoded (item (object config) end)) ≡ ok tt
      → (wire : Bytes) × (decode64_value max_transaction_bytes encoded ≡ ok wire)
        × IsBound k wire
            (drop 197 wire)
            (encode58 (take 64 (drop 1 wire)))
            (encode58 (take 32 (drop 69 wire)))
  unfolding validate_send
  validate_write-IsBound encoded config h =
      let sent = sym (validate_write-send (item encoded (item (object config) end))) ∙ h in
      let (_, checked) = raise_if-ok (not (is_send_config config)) invalid_send_request sent in
      validate_transaction-IsBound encoded checked

module _ (k : Ed25519) (laws : IsEd25519 k) where
  all_chars-IsAscii :
      (digest : Text) → all_chars is_hex digest ≡ true → all_chars (λ c. ltb c 128) digest ≡ true
  unfolding is_hex in_range
  all_chars-IsAscii [] h = refl
  all_chars-IsAscii (c ∷ digest) h = ground (arith, h, all_chars-IsAscii digest)

  -- the wire of a transaction that a secret signs
  pub validate_write-wire :
      (config : Members) (secret block : Bytes) (commitment : Text) (n : length secret ≡ 32)
      (c : check_commitment commitment ≡ ok commitment) (lb : length block ≡ 32)
      (hb : All IsByte block)
      → is_send_config config ≡ true
      → validate_write k (text "sendTransaction") (
          item
            (string (b64encode (wire k laws secret block commitment n c lb hb)))
            (item (object config) end))
        ≡ ok tt
  unfolding validate_send validate_transaction check_commitment decode64_value
  validate_write-wire config secret block commitment n c lb hb sendable =
      validate_write-send k (
        item (string (b64encode (wire k laws secret block commitment n c lb hb)))
          (item (object config) end))
      ∙ rw
          (
            sendable,
            decode64-wire k laws secret block commitment n c lb hb,
            length-wire k laws secret block commitment n c lb hb,
            commitment-wire k laws secret block commitment n c lb hb,
            all_chars-IsAscii commitment (ground (arith, c)),
            take-wire k laws secret block commitment n c lb hb,
            signer-wire k laws secret block commitment n c lb hb,
          )
          (verify_wire-wire k laws secret block commitment n c lb hb)

  -- Where the key pair is accepted, the commitment is 64 hexadecimal digits, the blockhash decodes to 32
  -- bytes and the options are among those allowed, the transaction that `build_transaction` makes may be
  -- sent with them.
  pub validate_write-build_transaction :
      (keypair config : Members) (secret block : Bytes) (commitment blockhash : Text)
      → load_key k keypair ≡ ok secret
      → check_commitment commitment ≡ ok commitment
      → decode58 32 blockhash ≡ ok block
      → is_send_config config ≡ true
      → (encoded : Text) × (signature : Text) × (build_transaction k commitment keypair blockhash
          ≡ ok (encoded, signature))
        × (validate_write k
              (text "sendTransaction")
              (item (string encoded) (item (object config) end))
            ≡ ok tt)
  validate_write-build_transaction keypair config secret block commitment blockhash loaded c b
        sendable =
      let n = load_key-length k laws keypair secret loaded in
      let (lb, _) = decode58_sound 32 blockhash block b in
      let hb = decode58-IsByte 32 blockhash block b in
      (
        b64encode (wire k laws secret block commitment n c lb hb),
        encode58 (signed k laws secret block commitment n c lb hb),
        build_transaction-wire k laws keypair secret block commitment blockhash loaded c b n lb hb,
        validate_write-wire config secret block commitment n c lb hb sendable,
      )
