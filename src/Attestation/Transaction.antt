-- ===== src/Attestation/Transaction.antt =====
-- `_commitment`, `_message`, the key pair, `build_transaction` and `_verify_wire` of
-- src/reliamesh/solana_attest.py. The package cryptography is a parameter.
pub mod Shape
pub mod Binding
pub mod Signing
use reliamesh.Prelude.{
  ℕ, ◌+◌, ◌*◌, Bool, true, false, Option, none, some, List, [], ◌∷◌, ◌++◌, Text, text, length, take,
  drop, all_chars, ltb, leb, ◌==◌, if◌then◌else◌, not, ◌&&◌, ◌||◌, Result, ok, err, ◌>>=◌, ◌>>◌,
  raise_if,
}
use reliamesh.Storage.Common.{is_hex}
use reliamesh.Storage.Sqlite.Tables.{same}
use reliamesh.Attestation.Base58.{
  Bytes, Error, encode58, decode58, invalid_base58, invalid_base64, invalid_commitment,
  invalid_transaction, invalid_keypair, keypair_public_key_mismatch, transaction_signature_mismatch,
  transaction_message_mismatch, transaction_signature_invalid,
}
use reliamesh.Attestation.Base64.{b64encode, decode64}
use reliamesh.Attestation.Values.{Value, string, object, Members, close, member, get, has_text}

-- Ed25519 on raw bytes: the public key of a secret, the signature of a message under a secret, and
-- whether a signature is one of a message under a public key.
pub record Ed25519 : Type 0 where
  pub public : Bytes → Bytes
  pub sign : Bytes → Bytes → Bytes
  pub verify : Bytes → Bytes → Bytes → Bool

abbrev pub devnet_genesis : Text
devnet_genesis = text "EtWTRABZaYq6iMfeYKouRu166VU2xqa1wcaWoxPkrZBG"

abbrev pub memo_program : Text
memo_program = text "MemoSq4gqABAXKb96qnH8TysNcWxMyWCqXgDLGmfcHr"

abbrev pub memo_prefix : Bytes
memo_prefix = text "reliamesh:attest:v1:sha256:"

abbrev pub key_format : Text
key_format = text "reliamesh-solana-devnet-key/v1"

abbrev pub max_transaction_bytes : ℕ
max_transaction_bytes = 1232

-- `_commitment`
unfoldable pub check_commitment : Text → Result Error Bytes
check_commitment digest =
    if length digest == 64 && all_chars is_hex digest then ok digest else err invalid_commitment

-- one instruction, of program 1 on account 0, and its data
unfoldable pub instruction : Bytes → Bytes
instruction memo = 1 ∷ 1 ∷ 1 ∷ 0 ∷ length memo ∷ memo

-- `_message`: one signer that pays, and one read-only program
unfoldable pub message : Text → Bytes → Bytes → Result Error Bytes
message commitment signer blockhash = do
  digest ← check_commitment commitment
  raise_if (not (length signer == 32) || not (length blockhash == 32)) invalid_transaction
  program ← decode58 32 memo_program
  ok (1 ∷ 0 ∷ 1 ∷ 2 ∷ (signer ++ (program ++ (blockhash ++ instruction (memo_prefix ++ digest)))))

-- `_decode58` and `_decode64` of a value that may be no text
unfoldable pub decode58_value : ℕ → Value → Result Error Bytes
decode58_value size (string t) = decode58 size t
decode58_value size _ = err invalid_base58

unfoldable pub decode64_value : ℕ → Value → Result Error Bytes
decode64_value limit (string t) = decode64 limit t
decode64_value limit _ = err invalid_base64

unfoldable pub members : Members → ℕ
members close = 0
members (member k v d) = members d + 1

-- `wire[0]`; a wire of 165 bytes has it
abbrev pub first_byte : Bytes → ℕ
first_byte [] = 0
first_byte (b ∷ bytes) = b

module _ (k : Ed25519) where
  -- `_load_key`, of a dict: its keys are distinct. It returns the secret.
  unfoldable pub load_key : Members → Result Error Bytes
  load_key keypair = do
    raise_if (not (members keypair == 4)) invalid_keypair
    elim (get (text "secret_key_base64") keypair) [
      | none ↦ err invalid_keypair
      | some secret ↦ elim (get (text "public_key") keypair) [
        | none ↦ err invalid_keypair
        | some public ↦ do
          raise_if
              (not (has_text (text "format") key_format keypair)
                || not (has_text (text "genesis_hash") devnet_genesis keypair))
              invalid_keypair
          key ← decode64_value 32 secret
          raise_if (not (length key == 32)) invalid_keypair
          expected ← decode58_value 32 public
          raise_if (not (same (k.public key) expected)) keypair_public_key_mismatch
          ok key
      ]
    ]

  -- the key pair of a secret that the library generated
  unfoldable pub generate_keypair : Bytes → Members
  generate_keypair secret = member (text "format") (string key_format) (
      member (text "genesis_hash") (string devnet_genesis) (
        member (text "public_key") (string (encode58 (k.public secret)))
          (member (text "secret_key_base64") (string (b64encode secret)) close)))

  unfoldable pub signer_public_key : Members → Result Error Text
  signer_public_key keypair = do key ← load_key keypair; ok (encode58 (k.public key))

  unfoldable pub build_transaction : Text → Members → Text → Result Error (Text × Text)
  build_transaction commitment keypair blockhash = do
    key ← load_key keypair
    block ← decode58 32 blockhash
    body ← message commitment (k.public key) block
    let signature = k.sign key body
    ok (b64encode (1 ∷ signature ++ body), encode58 signature)

  unfoldable pub verify_wire : Value → Text → Text → Text → Result Error (Unit {0})
  verify_wire encoded commitment signature signer = do
    wire ← decode64_value max_transaction_bytes encoded
    expected_signature ← decode58 64 signature
    signer_bytes ← decode58 32 signer
    raise_if
        (ltb (length wire) 165
          || (not (first_byte wire == 1) || not (same (take 64 (drop 1 wire)) expected_signature)))
        transaction_signature_mismatch
    let body = drop 65 wire
    expected_message ← message commitment signer_bytes (take 32 (drop 68 body))
    raise_if (not (same body expected_message)) transaction_message_mismatch
    raise_if (not (k.verify signer_bytes expected_signature body)) transaction_signature_invalid
