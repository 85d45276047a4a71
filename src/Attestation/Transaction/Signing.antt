-- ===== src/Attestation/Transaction/Signing.antt =====
-- The key pairs and transactions that src/reliamesh/solana_attest.py makes are those that it accepts.
use reliamesh.Prelude.{
  ◌≡◌, refl, ap, ◌∙◌, true, ◌∷◌, ◌++◌, Text, length, take, drop, All, All-append, ok, arith,
  length-append, inl, inr,
}
use reliamesh.Attestation.Base58.{Bytes, encode58, decode58}
use reliamesh.Attestation.Base58.RoundTrip.{IsByte, decode58-encode58}
use reliamesh.Attestation.Base64.{b64encode, decode64}
use reliamesh.Attestation.Base64.RoundTrip.{decode64-b64encode}
use reliamesh.Attestation.Values.{string, Members, get, is_text, has_text}
use reliamesh.Attestation.Transaction.{
  Ed25519, check_commitment, message, load_key, generate_keypair, build_transaction, verify_wire,
  members, decode58_value, decode64_value,
}
use reliamesh.Attestation.Transaction.Shape.{
  same_refl, take-append, drop-append, decode58_sound, decode58-IsByte, check_commitment_sound,
  message-ok, message_bytes, message_bytes-blockhash, message_bytes-signer, message_bytes-digest,
  drop-add, message_bytes-IsByte, check_commitment-IsByte, length-message_bytes,
}

-- What the package documents of Ed25519: the sizes, and that a signature verifies.
pub record IsEd25519 (k : Ed25519) : Type 0 where
  pub length-public : (secret : Bytes) → length secret ≡ 32 → length (k.public secret) ≡ 32
  pub public-bytes : (secret : Bytes) → length secret ≡ 32 → All IsByte (k.public secret)
  pub length-sign : (secret body : Bytes) → length secret ≡ 32 → length (k.sign secret body) ≡ 64
  pub sign-bytes : (secret body : Bytes) → length secret ≡ 32 → All IsByte (k.sign secret body)
  pub verify-sign :
      (secret body : Bytes)
      → length secret ≡ 32
      → k.verify (k.public secret) (k.sign secret body) body ≡ true

module _ (k : Ed25519) (laws : IsEd25519 k) where
  -- The key pair of a generated secret is accepted, and is that of the secret.
  pub load_key-generate_keypair :
      (secret : Bytes)
      → length secret ≡ 32
      → All IsByte secret
      → load_key k (generate_keypair k secret) ≡ ok secret
  unfolding load_key generate_keypair get has_text is_text members decode58_value decode64_value
  load_key-generate_keypair secret n h =
      let secret_back = decode64-b64encode 32 secret h (omega (arith, n)) in
      let public_back =
        decode58-encode58 (k.public secret) (laws.public-bytes secret n) 32
          (laws.length-public secret n) (inl refl) in
      ground (arith, secret_back, public_back, n, same_refl (k.public secret))

  pub load_key-length :
      (keypair : Members) (secret : Bytes) → load_key k keypair ≡ ok secret → length secret ≡ 32
  unfolding load_key
  load_key-length keypair secret h = ground (arith, h)

  -- The wire of a transaction that a secret signs.
  module _ (secret block : Bytes) (commitment : Text) (n : length secret ≡ 32)
      (c : check_commitment commitment ≡ ok commitment) (lb : length block ≡ 32)
      (hb : All IsByte block) where
    abbrev pub body : Bytes
    body = message_bytes commitment (k.public secret) block

    abbrev pub signed : Bytes
    signed = k.sign secret body

    abbrev pub wire : Bytes
    wire = 1 ∷ signed ++ body

    length-public-key : length (k.public secret) ≡ 32
    length-public-key = laws.length-public secret n

    length-signed : length signed ≡ 64
    length-signed = laws.length-sign secret body n

    length-commitment : length commitment ≡ 64
    length-commitment = (check_commitment_sound commitment commitment c).1

    pub message-body : message commitment (k.public secret) block ≡ ok body
    message-body = message-ok commitment (k.public secret) block c length-public-key lb

    pub length-wire : length wire ≡ 261
    length-wire = omega (
      arith,
      length-append signed body,
      length-signed,
      length-message_bytes commitment (k.public secret) block length-commitment length-public-key
          lb,
    )

    wire-IsByte : All IsByte wire
    wire-IsByte = (
      omega arith,
      All-append IsByte signed body (laws.sign-bytes secret body n) (
          message_bytes-IsByte commitment (k.public secret) block length-commitment
            (check_commitment-IsByte commitment c) (laws.public-bytes secret n) hb),
    )

    pub decode64-wire : decode64 1232 (b64encode wire) ≡ ok wire
    decode64-wire = decode64-b64encode 1232 wire wire-IsByte (omega (arith, length-wire))

    pub drop-wire : drop 65 wire ≡ body
    drop-wire = drop-append 65 (1 ∷ signed) body (omega (arith, length-signed))

    pub take-wire : take 64 (drop 1 wire) ≡ signed
    unfolding drop
    take-wire = take-append 64 signed body length-signed

    pub signer-wire : take 32 (drop 69 wire) ≡ k.public secret
    signer-wire =
        ap (take 32) (drop-add 65 (1 ∷ signed) body 69 4 (omega (arith, length-signed)) refl)
        ∙ message_bytes-signer commitment (k.public secret) block length-public-key

    pub commitment-wire : drop 197 wire ≡ commitment
    commitment-wire =
        drop-add 65 (1 ∷ signed) body 197 132 (omega (arith, length-signed)) refl
        ∙ message_bytes-digest commitment (k.public secret) block length-public-key lb

    pub verify_wire-wire :
        verify_wire k
          (string (b64encode wire))
          commitment
          (encode58 signed)
          (encode58 (k.public secret))
        ≡ ok tt
    unfolding verify_wire decode64_value
    verify_wire-wire = ground (
      arith,
      decode64-wire,
      decode58-encode58 signed (laws.sign-bytes secret body n) 64 length-signed (inr refl),
      decode58-encode58 (k.public secret) (laws.public-bytes secret n) 32 length-public-key
          (inl refl),
      length-wire,
      drop-wire,
      take-wire,
      message_bytes-blockhash commitment (k.public secret) block length-public-key lb,
      message-body,
      same_refl signed,
      same_refl body,
      laws.verify-sign secret body n,
    )

  pub build_transaction-wire :
      (keypair : Members) (secret block : Bytes) (commitment blockhash : Text)
      (loaded : load_key k keypair ≡ ok secret) (c : check_commitment commitment ≡ ok commitment)
      (b : decode58 32 blockhash ≡ ok block) (n : length secret ≡ 32) (lb : length block ≡ 32)
      (hb : All IsByte block)
      → build_transaction k commitment keypair blockhash
        ≡ ok (
          b64encode (wire secret block commitment n c lb hb),
          encode58 (signed secret block commitment n c lb hb),
        )
  unfolding build_transaction
  build_transaction-wire keypair secret block commitment blockhash loaded c b n lb hb =
      rw (loaded, b, message-body secret block commitment n c lb hb) refl

  -- The transaction that a key signs for a commitment, on a blockhash, verifies for the commitment,
  -- the signature that is returned with it, and the public key of the key pair.
  pub verify_wire-build_transaction :
      (keypair : Members) (secret block : Bytes) (commitment blockhash : Text)
      → load_key k keypair ≡ ok secret
      → check_commitment commitment ≡ ok commitment
      → decode58 32 blockhash ≡ ok block
      → (encoded : Text) × (signature : Text) × (build_transaction k commitment keypair blockhash
          ≡ ok (encoded, signature))
        × (verify_wire k (string encoded) commitment signature (encode58 (k.public secret)) ≡ ok tt)
  verify_wire-build_transaction keypair secret block commitment blockhash loaded c b =
      let n = load_key-length keypair secret loaded in
      let (lb, _) = decode58_sound 32 blockhash block b in
      let hb = decode58-IsByte 32 blockhash block b in
      (
        b64encode (wire secret block commitment n c lb hb),
        encode58 (signed secret block commitment n c lb hb),
        build_transaction-wire keypair secret block commitment blockhash loaded c b n lb hb,
        verify_wire-wire secret block commitment n c lb hb,
      )
