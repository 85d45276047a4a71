-- ===== src/Attestation/Base58.antt =====
-- `_encode58` and `_decode58` of src/reliamesh/solana_attest.py, and the codes of `AttestationError`.
pub mod RoundTrip
use reliamesh.Prelude.{
  ℕ, zero, suc, ◌+◌, ◌*◌, Bool, true, false, Option, none, some, List, [], ◌∷◌, ◌++◌, map, Text,
  text, length, get_elem?, leb, ◌==◌, if◌then◌else◌, not, ◌&&◌, ◌||◌, Result, ok, err, ◌>>=◌, ◌>>◌,
  raise_if,
}
use reliamesh.Prelude.Digits.{digits, value}
use reliamesh.Storage.Sqlite.Tables.{same}

-- The bytes of a `bytes` object.
abbrev pub Bytes : Type 0
Bytes = List ℕ

pub data Error : Type 0 where
  invalid_base58 invalid_base64 invalid_commitment invalid_transaction invalid_keypair
        keypair_public_key_mismatch transaction_signature_mismatch transaction_message_mismatch
        transaction_signature_invalid invalid_airdrop_request invalid_send_request
        invalid_send_transaction devnet_genesis_mismatch rpc_method_not_allowed
        invalid_rpc_parameters rpc_request_too_large rpc_response_rejected rpc_encoding_rejected
        rpc_unavailable rpc_redirect_rejected rpc_response_too_large invalid_rpc_response
        rpc_request_failed invalid_last_valid_block_height invalid_signature_status
        invalid_block_height transaction_not_finalized_or_unavailable unsupported_transaction
        transaction_failed_or_unavailable invalid_transaction_response
        invalid_transaction_metadata :
      Error

abbrev pub alphabet : Text
alphabet = text "123456789ABCDEFGHJKLMNPQRSTUVWXYZabcdefghijkmnopqrstuvwxyz"

-- `_BASE58[d]`, of a digit below 58
unfoldable pub character : ℕ → ℕ
character d = elim (get_elem? alphabet d) [ none ↦ 0 | some c ↦ c ]

unfoldable pub index_from : ℕ → Text → ℕ → Option ℕ
index_from i [] c = none
index_from i (x ∷ xs) c = if x == c then some i else index_from (i + 1) xs c

-- `_BASE58_VALUES.get(c)`
unfoldable pub digit_of : ℕ → Option ℕ
digit_of c = index_from 0 alphabet c

-- `len(xs) - len(xs.lstrip(c))`
unfoldable pub leading : ℕ → List ℕ → ℕ
leading c [] = 0
leading c (x ∷ xs) = if x == c then suc (leading c xs) else 0

unfoldable pub repeat : ℕ → ℕ → List ℕ
repeat zero c = []
repeat (suc n) c = c ∷ repeat n c

-- Two digits to base 58 are enough for each byte.
unfoldable pub encode58 : Bytes → Text
encode58 bytes =
    repeat (leading 0 bytes) b'1'
    ++ map character (digits 58 (2 * length bytes) (value 256 0 bytes) [])

-- the loop over the characters, from a number
unfoldable pub number_from : ℕ → Text → Option ℕ
number_from n [] = some n
number_from n (c ∷ cs) = elim (digit_of c) [ none ↦ none | some d ↦ number_from (n * 58 + d) cs ]

abbrev pub max_length : ℕ → ℕ
max_length size = if size == 64 then 88 else 44

-- A number of at most 88 digits to base 58 has at most 88 bytes.
unfoldable pub decode58 : ℕ → Text → Result Error Bytes
decode58 size encoded = do
  raise_if (not (leb 1 (length encoded) && leb (length encoded) (max_length size))) invalid_base58
  elim (number_from 0 encoded) [
    | none ↦ err invalid_base58
    | some number ↦
        let decoded = repeat (leading b'1' encoded) 0 ++ digits 256 88 number [] in
        raise_if (not (length decoded == size && same (encode58 decoded) encoded)) invalid_base58
        >> ok decoded
  ]
