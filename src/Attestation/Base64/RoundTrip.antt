-- ===== src/Attestation/Base64/RoundTrip.antt =====
-- What `b64encode` writes, `_decode64` accepts and reads back.
use reliamesh.Prelude.{
  ℕ, ◌+◌, ◌*◌, ◌/◌, ◌%◌, ◌≤◌, ◌<◌, ◌≡◌, refl, Bool, true, false, some, [], ◌∷◌, length, ◌==◌, ok,
  All, arith, holds_below, holds_below-lt,
}
use reliamesh.Attestation.Base58.{Bytes, index_from}
use reliamesh.Attestation.Base58.RoundTrip.{IsByte}
use reliamesh.Attestation.Base64.{
  character, b64encode, digit, padding, other, sextet, decode_quad, b64decode, decode64,
}

is_inverse : ℕ → Bool
is_inverse d = elim (sextet (character d)) [ digit e ↦ e == d | padding ↦ false | other ↦ false ]

inverse_table : holds_below is_inverse 64 ≡ true
unfolding holds_below is_inverse sextet character index_from
inverse_table = refl

sextet-character : (d : ℕ) → d < 64 → sextet (character d) ≡ digit d
unfolding is_inverse
sextet-character d h = ground (arith, holds_below-lt is_inverse 64 d h inverse_table)

sextet_padding : sextet b'=' ≡ padding
unfolding sextet
sextet_padding = refl

-- the rest is not taken for the last four where it holds more
b64decode-b64encode : (bytes : Bytes) → All IsByte bytes → b64decode (b64encode bytes) ≡ some bytes
unfolding b64encode b64decode decode_quad
b64decode-b64encode [] h = refl
b64decode-b64encode (a ∷ []) h =
    rw
      (
        sextet-character (a / 4) (omega (arith, h.0)),
        sextet-character (a % 4 * 16) (omega arith),
        sextet_padding,
      )
      (ground (arith, h.0))
b64decode-b64encode (a ∷ b ∷ []) h =
    rw
      (
        sextet-character (a / 4) (omega (arith, h.0)),
        sextet-character (a % 4 * 16 + b / 16) (omega (arith, h.1.0)),
        sextet-character (b % 16 * 4) (omega arith),
        sextet_padding,
      )
      (ground (arith, h.0, h.1.0))
b64decode-b64encode (a ∷ b ∷ c ∷ rest) h =
    rw
      (
        sextet-character (a / 4) (omega (arith, h.0)),
        sextet-character (a % 4 * 16 + b / 16) (omega (arith, h.1.0)),
        sextet-character (b % 16 * 4 + c / 64) (omega (arith, h.1.1.0)),
        sextet-character (c % 64) (omega arith),
        b64decode-b64encode rest h.1.1.1,
      )
      (ground (arith, h.0, h.1.0, h.1.1.0))

length-b64encode : (bytes : Bytes) → length (b64encode bytes) ≡ 4 * ((length bytes + 2) / 3)
unfolding b64encode
length-b64encode [] = omega arith
length-b64encode (a ∷ []) = omega arith
length-b64encode (a ∷ b ∷ []) = omega arith
length-b64encode (a ∷ b ∷ c ∷ rest) = omega (arith, length-b64encode rest)

-- What `b64encode` writes of bytes within the limit, `_decode64` accepts, and returns the bytes.
pub decode64-b64encode :
    (limit : ℕ) (bytes : Bytes)
    → All IsByte bytes
    → length bytes ≤ limit
    → decode64 limit (b64encode bytes) ≡ ok bytes
unfolding decode64
decode64-b64encode limit bytes h short =
    ground (arith, b64decode-b64encode bytes h, length-b64encode bytes)
