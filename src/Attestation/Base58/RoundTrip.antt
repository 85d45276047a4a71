-- ===== src/Attestation/Base58/RoundTrip.antt =====
-- What `_encode58` writes, `_decode58` accepts and reads back.
use reliamesh.Prelude.{
  ℕ, zero, suc, ◌+◌, ◌*◌, ◌^◌, ◌≤◌, ◌<◌, ◌≡◌, ◌≢◌, ◌⊎◌, refl, sym, ap, ◌∙◌, Bool, true, false, none,
  some, List, [], ◌∷◌, ◌++◌, map, Text, length, leb, ◌==◌, if◌then◌else◌, not, ◌||◌, ok, All, arith,
  Bool-cases, List-cases, length-append, inl, inr, leb→le, holds_below, holds_below-lt,
}
use native.Mathlib.Nat.{pow-zero}
use reliamesh.Prelude.Digits.{
  digits, value, value-digits, digits-value, digits-value-nil, digits-zero, length-digits,
  digits-All, digits-head, value-lt,
}
use reliamesh.Attestation.Base58.{
  Bytes, character, index_from, digit_of, leading, repeat, encode58, number_from, max_length,
  decode58,
}

abbrev pub IsByte : ℕ → Type 0
IsByte b = b < 256

-- `_BASE58_VALUES` inverts `_BASE58`
is_inverse : ℕ → Bool
is_inverse d = elim (digit_of (character d)) [ none ↦ false | some e ↦ e == d ]

inverse_table : holds_below is_inverse 58 ≡ true
unfolding holds_below is_inverse digit_of character index_from
inverse_table = refl

digit_of-character : (d : ℕ) → d < 58 → digit_of (character d) ≡ some d
unfolding is_inverse
digit_of-character d h = ground (arith, holds_below-lt is_inverse 58 d h inverse_table)

-- only the digit zero is written `1`
is_one : ℕ → Bool
is_one d = (d == 0) || not (character d == b'1')

one_table : holds_below is_one 58 ≡ true
unfolding holds_below is_one character
one_table = refl

character-one : (d : ℕ) → d < 58 → 0 < d → (character d == b'1') ≡ false
unfolding is_one
character-one d h p = ground (arith, holds_below-lt is_one 58 d h one_table)

number_from-cons :
    (n c d : ℕ) (cs : Text)
    → digit_of c ≡ some d
    → number_from n (c ∷ cs) ≡ number_from (n * 58 + d) cs
unfolding number_from
number_from-cons n c d cs e = ground (arith, e)

number_from-character :
    (n : ℕ) (ds : List ℕ)
    → All (λ d. d < 58) ds
    → number_from n (map character ds) ≡ some (value 58 n ds)
unfolding number_from value
number_from-character n [] h = refl
number_from-character n (d ∷ ds) h =
    number_from-cons n (character d) d (map character ds) (digit_of-character d h.0)
    ∙ number_from-character (n * 58 + d) ds h.1

number_from-repeat : (k : ℕ) (cs : Text) → number_from 0 (repeat k b'1' ++ cs) ≡ number_from 0 cs
unfolding number_from repeat digit_of index_from
number_from-repeat zero cs = refl
number_from-repeat (suc k) cs = number_from-repeat k cs

-- the list after its leading `c`s
strip : ℕ → List ℕ → List ℕ
strip c [] = []
strip c (x ∷ xs) = if x == c then strip c xs else x ∷ xs

repeat-strip : (c : ℕ) (xs : List ℕ) → repeat (leading c xs) c ++ strip c xs ≡ xs
unfolding leading repeat strip
repeat-strip c [] = refl
repeat-strip c (x ∷ xs) = ground (arith, repeat-strip c xs)

leading-repeat : (c k : ℕ) (xs : List ℕ) → leading c (repeat k c ++ xs) ≡ k + leading c xs
unfolding leading repeat
leading-repeat c zero xs = omega arith
leading-repeat c (suc k) xs = ground (arith, leading-repeat c k xs)

length-repeat : (k c : ℕ) → length (repeat k c) ≡ k
unfolding repeat
length-repeat zero c = refl
length-repeat (suc k) c = omega (arith, length-repeat k c)

value-repeat : (k : ℕ) (xs : List ℕ) → value 256 0 (repeat k 0 ++ xs) ≡ value 256 0 xs
unfolding value repeat
value-repeat zero xs = refl
value-repeat (suc k) xs = value-repeat k xs

strip-All : (c : ℕ) (xs : List ℕ) → All IsByte xs → All IsByte (strip c xs)
unfolding strip
strip-All c [] h = tt
strip-All c (x ∷ xs) h = ground (arith, strip-All c xs)

-- what is left begins with another character
data IsStripped (c : ℕ) : List ℕ → Type 0 where
  empty : IsStripped c []
  begins : (x : ℕ) (xs : List ℕ) → x ≢ c → IsStripped c (x ∷ xs)

strip-IsStripped : (c : ℕ) (xs : List ℕ) → IsStripped c (strip c xs)
unfolding strip
strip-IsStripped c [] = empty
strip-IsStripped c (x ∷ xs) = elim (Bool-cases (x == c)) [
  | inl same ↦ rw same (strip-IsStripped c xs)
  | inr other ↦ rw other (begins x xs (ground (arith, other)))
]

pow-le : (n : ℕ) → 256 ^ n ≤ 58 ^ (2 * n)
pow-le zero = omega arith
pow-le (suc n) =
    let e : 2 * suc n ≡ suc (suc (2 * n)) = omega arith in rw e (omega (arith, pow-le n))

short32_table : holds_below (λ m. leb (256 ^ m) (58 ^ (12 + m))) 33 ≡ true
unfolding holds_below
short32_table = refl

short32 : (m : ℕ) → m ≤ 32 → 256 ^ m ≤ 58 ^ (12 + m)
short32 m h =
    leb→le _ _
      (holds_below-lt (λ m. leb (256 ^ m) (58 ^ (12 + m))) 33 m (omega arith) short32_table)

short64_table : holds_below (λ m. leb (256 ^ m) (58 ^ (24 + m))) 65 ≡ true
unfolding holds_below
short64_table = refl

short64 : (m : ℕ) → m ≤ 64 → 256 ^ m ≤ 58 ^ (24 + m)
short64 m h =
    leb→le _ _
      (holds_below-lt (λ m. leb (256 ^ m) (58 ^ (24 + m))) 65 m (omega arith) short64_table)

leading-character :
    (l : List ℕ) (d : ℕ) (ds : List ℕ)
    → l ≡ d ∷ ds
    → 0 < d
    → All (λ d. d < 58) l
    → leading b'1' (map character l) ≡ 0
unfolding leading
leading-character [] d ds e p h = refl
leading-character (x ∷ l) d ds e p h = ground (arith, e, p, character-one x h.0)

length-strip : (c : ℕ) (xs : List ℕ) → leading c xs + length (strip c xs) ≡ length xs
unfolding leading strip
length-strip c [] = omega arith
length-strip c (x ∷ xs) = ground (arith, length-strip c xs)

length-map {ℓ κ} :
    {A : Type ℓ} {B : Type κ} (f : A → B) (xs : List A) → length (map f xs) ≡ length xs
length-map f [] = refl
length-map f (x ∷ xs) = omega (arith, length-map f xs)

digits-strip :
    (xs : List ℕ)
    → IsStripped 0 xs
    → All IsByte xs
    → length xs < 88
    → digits 256 88 (value 256 0 xs) [] ≡ xs
digits-strip [] empty h short = digits-value-nil 256 (omega arith) 88
digits-strip (x ∷ xs) (begins y ys n) h short =
    digits-value 256 (omega arith) 88 x xs (omega arith) n h

module _ (bytes : Bytes) (h : All IsByte bytes) where
  number-strip : value 256 0 bytes ≡ value 256 0 (strip 0 bytes)
  number-strip =
      ap (value 256 0) (sym (repeat-strip 0 bytes)) ∙ value-repeat (leading 0 bytes) (strip 0 bytes)

  number-lt : value 256 0 bytes < 58 ^ (2 * length bytes)
  number-lt = omega (
    arith,
    pow-le (length bytes),
    value-lt 256 (omega arith) 0 bytes 0 (omega (arith, pow-zero 256)) h (length bytes)
        (omega arith),
  )

  abbrev number_digits : List ℕ
  number_digits = digits 58 (2 * length bytes) (value 256 0 bytes) []

  number_digits-All : All (λ d. d < 58) number_digits
  number_digits-All = digits-All 58 (omega arith) (2 * length bytes) (value 256 0 bytes) [] tt

  number_from-encode58 : number_from 0 (encode58 bytes) ≡ some (value 256 0 bytes)
  unfolding encode58 value
  number_from-encode58 =
      number_from-repeat (leading 0 bytes) (map character number_digits)
      ∙ number_from-character 0 number_digits number_digits-All
      ∙ ap some (value-digits 58 (omega arith) (2 * length bytes) (value 256 0 bytes) [] number-lt)

  leading-digits : leading b'1' (map character number_digits) ≡ 0
  unfolding leading
  leading-digits = elim (Bool-cases (value 256 0 bytes == 0)) [
    | inl none_ ↦
        (let z : value 256 0 bytes ≡ 0 = ground (arith, none_) in
          rw (z, digits-zero 58 (omega arith) (2 * length bytes) []) refl)
    | inr some_ ↦
        (let (d, ds, e, p) =
            digits-head 58 (omega arith) (2 * length bytes) (value 256 0 bytes) []
              (ground (arith, some_)) number-lt in
          leading-character number_digits d ds e p number_digits-All)
  ]

  decoded_bytes :
      length bytes ≤ 64 → repeat (leading 0 bytes) 0 ++ digits 256 88 (value 256 0 bytes) [] ≡ bytes
  decoded_bytes short =
      ap (λ n. repeat (leading 0 bytes) 0 ++ digits 256 88 n []) number-strip
      ∙ ap (λ xs. repeat (leading 0 bytes) 0 ++ xs)
          (digits-strip (strip 0 bytes) (strip-IsStripped 0 bytes) (strip-All 0 bytes h)
            (omega (arith, length-strip 0 bytes, short)))
      ∙ repeat-strip 0 bytes

  leading-encode58 : leading b'1' (encode58 bytes) ≡ leading 0 bytes
  unfolding encode58
  leading-encode58 =
      omega
        (arith, leading-repeat b'1' (leading 0 bytes) (map character number_digits), leading-digits)

  -- not too long, where the digits of each tail fit
  length-encode58 :
      (spare : ℕ)
      → ((m : ℕ) → m ≤ length bytes → 256 ^ m ≤ 58 ^ (spare + m))
      → length (encode58 bytes) ≤ spare + length bytes
  unfolding encode58
  length-encode58 spare fits =
      let m = length (strip 0 bytes) in
      let whole = length-strip 0 bytes in
      let small : value 256 0 bytes < 58 ^ (spare + m) = omega (
        arith,
        number-strip,
        value-lt 256 (omega arith) 0 (strip 0 bytes) 0 (omega (arith, pow-zero 256))
            (strip-All 0 bytes h) m (omega arith),
        fits m (omega (arith, whole)),
      ) in
      omega (
        arith,
        whole,
        length-append (repeat (leading 0 bytes) b'1') (map character number_digits),
        length-repeat (leading 0 bytes) b'1',
        length-map character number_digits,
        length-digits 58 (omega arith) (spare + m) (2 * length bytes) (value 256 0 bytes) [] small,
      )

  length-encode58-pos : 1 ≤ length bytes → length bytes ≤ 64 → 1 ≤ length (encode58 bytes)
  unfolding number_from leading repeat
  length-encode58-pos p short = elim (List-cases (encode58 bytes)) [
    | inl nothing ↦ absurd (ground (arith, p, is_empty nothing))
    | inr (c, cs, e) ↦ ground (arith, e)
  ]
    where
      is_empty : encode58 bytes ≡ [] → bytes ≡ []
      is_empty nothing =
          let number : value 256 0 bytes ≡ 0 =
            ground (arith, sym number_from-encode58 ∙ ap (number_from 0) nothing) in
          let lead : leading 0 bytes ≡ 0 = sym leading-encode58 ∙ ap (leading b'1') nothing in
          sym (decoded_bytes short)
          ∙ ap (λ k. repeat k 0 ++ digits 256 88 (value 256 0 bytes) []) lead
          ∙ ap (λ n. digits 256 88 n []) number
          ∙ digits-zero 256 (omega arith) 88 []

  -- What `_encode58` writes of bytes, 32 or 64 of them, `_decode58` of that size accepts, and returns
  -- the bytes.
  pub decode58-encode58 :
      (size : ℕ)
      → length bytes ≡ size
      → (size ≡ 32) ⊎ (size ≡ 64)
      → decode58 size (encode58 bytes) ≡ ok bytes
  unfolding decode58
  decode58-encode58 size e which =
      let short : length bytes ≤ 64 = ground (arith, which, e) in
      let back = decoded_bytes short in
      ground (
        arith,
        number_from-encode58,
        back,
        leading-encode58,
        length-encode58-pos (ground (arith, which, e)) short,
        fitting,
        e,
      )
    where
      fitting : length (encode58 bytes) ≤ max_length size
      fitting = elim which [
        | inl a ↦
            ground (arith, a, e, length-encode58 12 (λ m l. short32 m (omega (arith, a, e, l))))
        | inr b ↦
            ground (arith, b, e, length-encode58 24 (λ m l. short64 m (omega (arith, b, e, l))))
      ]
