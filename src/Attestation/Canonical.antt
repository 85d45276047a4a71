-- ===== src/Attestation/Canonical.antt =====
-- `_decode58` of src/reliamesh/solana_attest.py accepts the canonical texts, and no other.
use reliamesh.Prelude.{ℕ, ◌≡◌, ◌⊎◌, ◌↔◌, ◌∙◌, ap, sym, Text, length, All, ok}
use reliamesh.Attestation.Base58.{Bytes, encode58, decode58}
use reliamesh.Attestation.Base58.RoundTrip.{IsByte, decode58-encode58}
use reliamesh.Attestation.Transaction.Shape.{decode58_sound, decode58-IsByte}

-- For 32 and for 64 bytes, `_decode58` returns bytes of a text exactly where they are as many bytes,
-- and the text is what `_encode58` writes of them.
pub decode58-iff-encode58 :
    (size : ℕ) (encoded : Text) (bytes : Bytes)
    → (size ≡ 32) ⊎ (size ≡ 64)
    → (decode58 size encoded ≡ ok bytes)
      ↔ ((length bytes ≡ size) × (encode58 bytes ≡ encoded) × All IsByte bytes)
decode58-iff-encode58 size encoded bytes which = (
  λ e.
      let (n, w) = decode58_sound size encoded bytes e in
      (n, w, decode58-IsByte size encoded bytes e),
  λ p. ap (decode58 size) (sym p.1) ∙ decode58-encode58 bytes p.2 size p.0 which,
)
