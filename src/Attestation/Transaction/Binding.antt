-- ===== src/Attestation/Transaction/Binding.antt =====
-- What `_verify_wire` of src/reliamesh/solana_attest.py establishes about a transaction.
use reliamesh.Prelude.{
  take-append-drop, ◌≡◌, ◌≤◌, [], ◌∷◌, ◌++◌, all_chars, sym, ap, ◌∙◌, Bool, true, Text, length,
  take, drop, ltb, ◌==◌, not, ◌||◌, ok, >>=-eq-ok, raise_if-ok, >>=-after, arith,
}
use reliamesh.Attestation.Base58.{
  Bytes, encode58, decode58, transaction_signature_mismatch, transaction_message_mismatch,
}
use reliamesh.Attestation.Values.{Value}
use reliamesh.Storage.Common.{is_hex}
use reliamesh.Storage.Sqlite.Tables.{same}
use reliamesh.Attestation.Transaction.{
  Ed25519, decode64_value, max_transaction_bytes, message, first_byte, verify_wire,
}
use reliamesh.Attestation.Transaction.Shape.{
  same-eq, decode58_sound, message_sound, message-commitment, message_bytes,
  message_bytes-injective,
}

-- The transaction that an accepted wire holds.
pub record IsBound (k : Ed25519) (wire : Bytes) (commitment signature signer : Text) : Type 0 where
  pub key : Bytes
  pub signed : Bytes
  pub blockhash : Bytes
  pub key_text : encode58 key ≡ signer
  pub key_length : length key ≡ 32
  pub signature_text : encode58 signed ≡ signature
  pub signed_bytes : signed ≡ take 64 (drop 1 wire)
  pub signed_length : length signed ≡ 64
  pub commitment_length : length commitment ≡ 64
  pub commitment_hex : all_chars is_hex commitment ≡ true
  pub blockhash_length : length blockhash ≡ 32
  pub body : drop 65 wire ≡ message_bytes commitment key blockhash
  -- one signature, and no other bytes
  pub whole : wire ≡ 1 ∷ (signed ++ message_bytes commitment key blockhash)
  pub valid : k.verify key signed (drop 65 wire) ≡ true

wire-parts :
    (wire signed body : Bytes)
    → 165 ≤ length wire
    → first_byte wire ≡ 1
    → take 64 (drop 1 wire) ≡ signed
    → drop 65 wire ≡ body
    → wire ≡ 1 ∷ (signed ++ body)
unfolding drop
wire-parts [] signed body long one s b = absurd (omega (arith, long))
wire-parts (x ∷ wire) signed body long one s b =
    ap (λ y. y ∷ wire) one
    ∙ ap (λ ws. 1 ∷ ws)
        (sym (take-append-drop 64 wire)
          ∙ ap (λ xs. xs ++ drop 64 wire) s
          ∙ ap (λ ys. signed ++ ys) b)

-- the guard on the signature
abbrev is_unlike : Bytes → Bytes → Bool
is_unlike wire signed =
    ltb (length wire) 165
    || (not (first_byte wire == 1) || not (same (take 64 (drop 1 wire)) signed))

module _ (k : Ed25519) where
  pub verify_wire-IsBound :
      (encoded : Value) (wire : Bytes) (commitment signature signer : Text)
      → decode64_value max_transaction_bytes encoded ≡ ok wire
      → verify_wire k encoded commitment signature signer ≡ ok tt
      → IsBound k wire commitment signature signer
  unfolding verify_wire
  verify_wire-IsBound encoded wire commitment signature signer decoded h =
      let h1 = >>=-after (decode64_value max_transaction_bytes encoded) _ wire decoded h in
      let (signed, signed_ok, h2) = >>=-eq-ok (decode58 64 signature) _ h1 in
      let (key, key_ok, h3) = >>=-eq-ok (decode58 32 signer) _ h2 in
      let (shape, h4) = raise_if-ok (is_unlike wire signed) transaction_signature_mismatch h3 in
      let (expected, message_ok, h5) =
        >>=-eq-ok (message commitment key (take 32 (drop 68 (drop 65 wire)))) _ h4 in
      let (same_body, h6) =
        raise_if-ok (not (same (drop 65 wire) expected)) transaction_message_mismatch h5 in
      let (layout, digest_length, key_length, block_length) =
        message_sound commitment key (take 32 (drop 68 (drop 65 wire))) expected message_ok in
      let signature_bytes = same-eq (take 64 (drop 1 wire)) signed (ground (arith, shape)) in
      let body = same-eq (drop 65 wire) expected (ground (arith, same_body)) ∙ layout in
      record {
        key = key;
        signed = signed;
        blockhash = take 32 (drop 68 (drop 65 wire));
        key_text = (decode58_sound 32 signer key key_ok).1;
        key_length = key_length;
        signature_text = (decode58_sound 64 signature signed signed_ok).1;
        signed_bytes = sym signature_bytes;
        signed_length = (decode58_sound 64 signature signed signed_ok).0;
        commitment_length = digest_length;
        commitment_hex =
            message-commitment commitment key (take 32 (drop 68 (drop 65 wire))) expected
              message_ok;
        blockhash_length = block_length;
        body = body;
        whole =
            wire-parts wire signed _ (ground (arith, shape)) (ground (arith, shape)) signature_bytes
              body;
        valid = ground (arith, h6);
      }

  -- an accepted text has a wire
  pub decoded_wire :
      (encoded : Value) (c s a : Text)
      → verify_wire k encoded c s a ≡ ok tt
      → (wire : Bytes) × (decode64_value max_transaction_bytes encoded ≡ ok wire)
  unfolding verify_wire
  decoded_wire encoded c s a h =
      let (wire, decoded, _) = >>=-eq-ok (decode64_value max_transaction_bytes encoded) _ h in
      (wire, decoded)

  -- A transaction that is accepted for two commitments, signatures and signers is accepted for one:
  -- they are equal.
  pub verify_wire-binding :
      (encoded : Value) (c d s t a b : Text)
      → verify_wire k encoded c s a ≡ ok tt
      → verify_wire k encoded d t b ≡ ok tt
      → (c ≡ d) × (s ≡ t) × (a ≡ b)
  verify_wire-binding encoded c d s t a b h g =
      let (wire, decoded) = decoded_wire encoded c s a h in
      let p = verify_wire-IsBound encoded wire c s a decoded h in
      let q = verify_wire-IsBound encoded wire d t b decoded g in
      let (commitments, keys) =
        message_bytes-injective c d p.key q.key p.blockhash q.blockhash p.key_length q.key_length
          p.blockhash_length q.blockhash_length (sym p.body ∙ q.body) in
      let signatures : p.signed ≡ q.signed = p.signed_bytes ∙ sym q.signed_bytes in
      (
        commitments,
        sym p.signature_text ∙ ap encode58 signatures ∙ q.signature_text,
        sym p.key_text ∙ ap encode58 keys ∙ q.key_text,
      )
