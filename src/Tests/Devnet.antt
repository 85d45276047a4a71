-- ===== src/Tests/Devnet.antt =====
-- A key, a network and a commitment, and the theorems on the attestation's transactions at them.
use reliamesh.Prelude.{
  ◌%◌, ◌≡◌, ◌↔◌, refl, ◌∙◌, true, [], ◌∷◌, ◌++◌, map, Text, text, text_dec, in_range, length, take,
  drop, All, All-append, ok, arith, length-append, inl, inr,
}
use native.Mathlib.Nat.{mod-lt}
use reliamesh.Storage.Sqlite.Tables.{same}
use reliamesh.Attestation.Base58.{
  Bytes, encode58, decode58, repeat, number_from, digit_of, index_from, leading,
}
use reliamesh.Prelude.Digits.{digits, value}
use reliamesh.Storage.Common.{is_hex}
use reliamesh.Detection.Prune.{mem_text}
use reliamesh.Attestation.Base58.RoundTrip.{IsByte, decode58-encode58}
use reliamesh.Attestation.Canonical.{decode58-iff-encode58}
use reliamesh.Attestation.Base64.{b64encode, decode64}
use reliamesh.Attestation.Base64.RoundTrip.{decode64-b64encode}
use reliamesh.Attestation.Values.{
  string, integer, object, Members, member, close, item, end, get, has_text, is_text,
}
use reliamesh.Attestation.Transaction.{
  Ed25519, check_commitment, load_key, generate_keypair, build_transaction, verify_wire,
  decode64_value, max_transaction_bytes,
}
use reliamesh.Attestation.Transaction.Shape.{all_bytes-IsByte, message_bytes}
use reliamesh.Attestation.Transaction.Binding.{IsBound, verify_wire-binding}
use reliamesh.Attestation.Transaction.Signing.{
  IsEd25519, load_key-generate_keypair, verify_wire-build_transaction, verify_wire-wire,
}
use reliamesh.Attestation.Writes.{validate_write, is_send_config, keys_within, is_false, is_retries}
use reliamesh.Attestation.Writes.Sends.{
  validate_write-build_transaction, validate_write-IsBound, validate_write-wire,
}

-- A signature that is the public key twice, whatever the message.
unfoldable pub key_of : Bytes → Bytes
key_of = map (λ b. b % 256)

abbrev pub key : Ed25519
key = record {
  public = key_of;
  sign = λ secret body. key_of secret ++ key_of secret;
  verify = λ public signature body. same signature (public ++ public);
}

length-key_of : (secret : Bytes) → length (key_of secret) ≡ length secret
unfolding key_of
length-key_of [] = refl
length-key_of (b ∷ secret) = omega (arith, length-key_of secret)

key_of-IsByte : (secret : Bytes) → All IsByte (key_of secret)
unfolding key_of
key_of-IsByte [] = tt
key_of-IsByte (b ∷ secret) = (mod-lt b {m = 256} (omega arith), key_of-IsByte secret)

laws : IsEd25519 key
laws = record {
  length-public = λ secret n. length-key_of secret ∙ n;
  public-bytes = λ secret n. key_of-IsByte secret;
  length-sign = λ secret body n.
      omega (arith, length-append (key_of secret) (key_of secret), length-key_of secret, n);
  sign-bytes = λ secret body n.
      All-append IsByte (key_of secret) (key_of secret) (key_of-IsByte secret)
        (key_of-IsByte secret);
  verify-sign = λ secret body n. ground arith;
}

abbrev pub secret : Bytes
secret =
    0 ∷ 1 ∷ 2 ∷ 3 ∷ 250 ∷ 251 ∷ 252 ∷ 253 ∷ 0 ∷ 1 ∷ 2 ∷ 3 ∷ 250 ∷ 251 ∷ 252 ∷ 253 ∷ 7 ∷ 7 ∷ 7 ∷ 7
    ∷ 250 ∷ 251 ∷ 252 ∷ 253 ∷ 9 ∷ 9 ∷ 9 ∷ 9 ∷ 250 ∷ 251 ∷ 252 ∷ 253 ∷ []

secret-bytes : All IsByte secret
secret-bytes = all_bytes-IsByte secret refl

decode58-iff-encode58_example :
    (decode58 32 (encode58 secret) ≡ ok secret)
    ↔ ((length secret ≡ 32) × (encode58 secret ≡ encode58 secret) × All IsByte secret)
decode58-iff-encode58_example = decode58-iff-encode58 32 (encode58 secret) secret (inl refl)

decode64-b64encode_example : decode64 40 (b64encode secret) ≡ ok secret
decode64-b64encode_example = decode64-b64encode 40 secret secret-bytes (omega arith)

abbrev keypair : Members
keypair = generate_keypair key secret

load_key-generate_keypair_example : load_key key keypair ≡ ok secret
load_key-generate_keypair_example = load_key-generate_keypair key laws secret refl secret-bytes

loaded : load_key key keypair ≡ ok secret
loaded = load_key-generate_keypair key laws secret refl secret-bytes

abbrev pub commitment : Text
commitment = text "0123456789abcdef0123456789abcdef0123456789abcdef0123456789abcdef"

pub checked : check_commitment commitment ≡ ok commitment
unfolding check_commitment is_hex in_range
checked = refl

abbrev blockhash : Text
blockhash = text "11111111111111111111111111111111"

abbrev pub block : Bytes
block =
    0 ∷ 0 ∷ 0 ∷ 0 ∷ 0 ∷ 0 ∷ 0 ∷ 0 ∷ 0 ∷ 0 ∷ 0 ∷ 0 ∷ 0 ∷ 0 ∷ 0 ∷ 0 ∷ 0 ∷ 0 ∷ 0 ∷ 0 ∷ 0 ∷ 0 ∷ 0 ∷ 0
    ∷ 0 ∷ 0 ∷ 0 ∷ 0 ∷ 0 ∷ 0 ∷ 0 ∷ 0 ∷ []

decoded : decode58 32 blockhash ≡ ok block
unfolding decode58 number_from digit_of index_from repeat leading digits text_dec encode58 value
decoded = refl

verify_wire-build_transaction_example :
    (encoded : Text) × (signature : Text) × (build_transaction key commitment keypair blockhash
      ≡ ok (encoded, signature))
    × (verify_wire key (string encoded) commitment signature (encode58 (key_of secret)) ≡ ok tt)
verify_wire-build_transaction_example =
    verify_wire-build_transaction key laws keypair secret block commitment blockhash loaded checked
      decoded

abbrev pub config : Members
config = member (text "encoding") (string (text "base64")) (
    member (text "preflightCommitment") (string (text "finalized"))
      (member (text "maxRetries") (integer 0) close))

sendable : is_send_config config ≡ true
unfolding is_send_config keys_within mem_text text_dec has_text get is_text is_false is_retries
sendable = refl

validate_write-build_transaction_example :
    (encoded : Text) × (signature : Text) × (build_transaction key commitment keypair blockhash
      ≡ ok (encoded, signature))
    × (validate_write key
          (text "sendTransaction")
          (item (string encoded) (item (object config) end))
        ≡ ok tt)
validate_write-build_transaction_example =
    validate_write-build_transaction key laws keypair config secret block commitment blockhash
      loaded checked decoded sendable

block-bytes : All IsByte block
block-bytes = all_bytes-IsByte block refl

abbrev pub sent_wire : Bytes
sent_wire = 1 ∷ (key_of secret ++ key_of secret) ++ message_bytes commitment (key_of secret) block

abbrev pub sent_text : Text
sent_text = b64encode sent_wire

abbrev pub signature : Text
signature = encode58 (key_of secret ++ key_of secret)

abbrev pub signer : Text
signer = encode58 (key_of secret)

pub verified : verify_wire key (string sent_text) commitment signature signer ≡ ok tt
verified = verify_wire-wire key laws secret block commitment refl checked refl block-bytes

verify_wire-binding_example :
    (commitment ≡ commitment) × (signature ≡ signature) × (signer ≡ signer)
verify_wire-binding_example =
    verify_wire-binding key (string sent_text) commitment commitment signature signature signer
      signer verified verified

pub validated :
    validate_write key (text "sendTransaction") (item (string sent_text) (item (object config) end))
    ≡ ok tt
validated =
    validate_write-wire key laws config secret block commitment refl checked refl block-bytes
      sendable

validate_write-IsBound_example :
    (bytes : Bytes) × (decode64_value max_transaction_bytes (string sent_text) ≡ ok bytes)
    × IsBound key bytes
        (drop 197 bytes)
        (encode58 (take 64 (drop 1 bytes)))
        (encode58 (take 32 (drop 69 bytes)))
validate_write-IsBound_example = validate_write-IsBound key (string sent_text) config validated

pub decoded_signature : decode58 64 signature ≡ ok (key_of secret ++ key_of secret)
decoded_signature =
    decode58-encode58 (key_of secret ++ key_of secret)
      (All-append IsByte (key_of secret) (key_of secret) (key_of-IsByte secret)
        (key_of-IsByte secret))
      64 (omega (arith, length-append (key_of secret) (key_of secret), length-key_of secret))
      (inr refl)

pub decoded_signer : decode58 32 signer ≡ ok (key_of secret)
decoded_signer =
    decode58-encode58 (key_of secret) (key_of-IsByte secret) 32 (length-key_of secret) (inl refl)
