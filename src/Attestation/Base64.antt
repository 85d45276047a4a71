-- ===== src/Attestation/Base64.antt =====
-- `_decode64` of src/reliamesh/solana_attest.py, and what it uses of the module base64.
pub mod RoundTrip
use reliamesh.Prelude.{
  ℕ, ◌+◌, ◌*◌, ◌/◌, ◌%◌, Bool, true, false, Option, none, some, List, [], ◌∷◌, Text, text, length,
  get_elem?, ltb, ◌==◌, if◌then◌else◌, not, ◌||◌, Result, ok, err, ◌>>=◌, ◌>>◌, raise_if,
}
use reliamesh.Attestation.Base58.{Bytes, Error, invalid_base64, index_from}
use reliamesh.Storage.Sqlite.Tables.{same}

abbrev pub alphabet : Text
alphabet = text "ABCDEFGHIJKLMNOPQRSTUVWXYZabcdefghijklmnopqrstuvwxyz0123456789+/"

unfoldable pub character : ℕ → ℕ
character d = elim (get_elem? alphabet d) [ none ↦ 0 | some c ↦ c ]

-- `base64.b64encode`
unfoldable pub b64encode : Bytes → Text
b64encode [] = []
b64encode (a ∷ []) = character (a / 4) ∷ character (a % 4 * 16) ∷ b'=' ∷ b'=' ∷ []
b64encode (a ∷ b ∷ []) =
    character (a / 4) ∷ character (a % 4 * 16 + b / 16) ∷ character (b % 16 * 4) ∷ b'=' ∷ []
b64encode (a ∷ b ∷ c ∷ rest) =
    character (a / 4)
    ∷ character (a % 4 * 16 + b / 16)
    ∷ character (b % 16 * 4 + c / 64)
    ∷ character (c % 64)
    ∷ b64encode rest

-- A character of the alphabet, the padding, or another.
pub data Sextet : Type 0 where
  digit : ℕ → Sextet
  padding other : Sextet

unfoldable pub sextet : ℕ → Sextet
sextet c =
    if c == b'='
    then padding
    else elim (index_from 0 alphabet c) [ none ↦ other | some d ↦ digit d ]

-- four characters, whether they are the last, and what the rest decodes to
unfoldable pub decode_quad : Sextet → Sextet → Sextet → Sextet → Bool → Option Bytes → Option Bytes
decode_quad (digit w) (digit x) padding padding true rest = some ((w * 4 + x / 16) ∷ [])
decode_quad (digit w) (digit x) (digit y) padding true rest =
    some ((w * 4 + x / 16) ∷ (x % 16 * 16 + y / 4) ∷ [])
decode_quad (digit w) (digit x) (digit y) (digit z) last (some rest) =
    some ((w * 4 + x / 16) ∷ (x % 16 * 16 + y / 4) ∷ (y % 4 * 64 + z) ∷ rest)
decode_quad _ _ _ _ _ _ = none

abbrev pub is_nil : Text → Bool
is_nil [] = true
is_nil (c ∷ cs) = false

-- `base64.b64decode(value, validate=True)`, on the texts that `b64encode` writes
unfoldable pub b64decode : Text → Option Bytes
b64decode [] = some []
b64decode (w ∷ x ∷ y ∷ z ∷ rest) =
    decode_quad (sextet w) (sextet x) (sextet y) (sextet z) (is_nil rest) (b64decode rest)
b64decode _ = none

-- What is no text of `b64encode` fails the comparison, however it is decoded.
unfoldable pub decode64 : ℕ → Text → Result Error Bytes
decode64 limit encoded = do
  raise_if (ltb (4 * ((limit + 2) / 3)) (length encoded)) invalid_base64
  elim (b64decode encoded) [
    | none ↦ err invalid_base64
    | some decoded ↦
        raise_if (ltb limit (length decoded) || not (same (b64encode decoded) encoded))
          invalid_base64
        >> ok decoded
  ]
