-- ===== src/Prelude/Digits.antt =====
-- Positional notation in a base: the value of digits, and the digits of a value, the highest first.
use Prim.Native.Nat.{ℕ, zero, suc, ◌+◌, ◌-◌, ◌*◌, ◌/◌, ◌%◌, ◌^◌, ◌≤◌, ◌<◌}
use mathlib.Core.Path.{◌≡◌, refl, sym, ap, ◌∙◌}
use mathlib.Core.Bool.{false}
use mathlib.Core.List.{List, [], ◌∷◌, ◌++◌, append-nil}
use mathlib.Core.Logic.{◌≢◌, inl, inr}
use native.Mathlib.Omega.{arith}
use native.Mathlib.Nat.{
  pow-zero, pow-suc, div-add-mod', mod-lt, div-lt_iff_lt-mul, mul-add-div_right, div-eq_of_lt,
}
use reliamesh.Prelude.Tests.{if◌then◌else◌, ◌==◌, Bool-cases}
use reliamesh.Prelude.Lists.{length, All}

-- The digits of `n` before `rest`: `while n: n, r = divmod(n, base); rest = [r] + rest`. The fuel is
-- enough for `n < base ^ fuel`.
unfoldable pub digits : ℕ → ℕ → ℕ → List ℕ → List ℕ
digits base zero n rest = rest
digits base (suc fuel) n rest =
    let more = digits base fuel (n / base) (n % base ∷ rest) in if n == 0 then rest else more

-- `for d in ds: n = n * base + d`
unfoldable pub value : ℕ → ℕ → List ℕ → ℕ
value base n [] = n
value base n (d ∷ ds) = value base (n * base + d) ds

module _ (base : ℕ) (large : 1 < base) where
  pub digits-zero : (fuel : ℕ) (rest : List ℕ) → digits base fuel 0 rest ≡ rest
  unfolding digits
  digits-zero zero rest = refl
  digits-zero (suc fuel) rest = ground arith

  divide : (a d : ℕ) → d < base → ((a * base + d) / base ≡ a) × ((a * base + d) % base ≡ d)
  divide a d h =
      let q : (a * base + d) / base ≡ a =
        omega (arith, mul-add-div_right {m = base} (omega arith) a d, div-eq_of_lt h) in
      (q, omega (arith, div-add-mod' (a * base + d) base, ap (λ x. x * base) q))

  quotient-lt : (n fuel : ℕ) → n < base ^ suc fuel → n / base < base ^ fuel
  quotient-lt n fuel h =
      (div-lt_iff_lt-mul {k = base} {x = n} {y = base ^ fuel} (omega arith)).1
        (rw (← pow-suc base fuel) h)

  -- The value of the digits is the number again.
  pub value-digits :
      (fuel n : ℕ) (rest : List ℕ)
      → n < base ^ fuel
      → value base 0 (digits base fuel n rest) ≡ value base n rest
  unfolding digits value
  value-digits zero n rest h = let z : n ≡ 0 = omega (arith, h, pow-zero base) in rw z refl
  value-digits (suc fuel) n rest h = ground (
    arith,
    value-digits fuel (n / base) (n % base ∷ rest) (quotient-lt n fuel h),
    div-add-mod' n base,
  )

  digits-step :
      (fuel a d : ℕ) (rest : List ℕ)
      → d < base
      → 0 < a * base + d
      → digits base (suc fuel) (a * base + d) rest ≡ digits base fuel a (d ∷ rest)
  unfolding digits
  digits-step fuel a d rest h p =
      let (q, r) = divide a d h in
      let more : (a * base + d == 0) ≡ false = ground (arith, p) in rw (more, q, r) refl

  digits-last :
      (fuel d : ℕ) (rest : List ℕ) → 0 < d → d < base → digits base (suc fuel) d rest ≡ d ∷ rest
  digits-last fuel d rest p h =
      let start : 0 * base + d ≡ d = grind arith in
      ap (λ x. digits base (suc fuel) x rest) (sym start)
      ∙ digits-step fuel 0 d rest h (omega (arith, start, p))
      ∙ digits-zero fuel (d ∷ rest)

  -- The digits of a value are the digits, where they do not begin with a zero.
  digits-value_from :
      (fuel total a : ℕ) (ds rest : List ℕ)
      → total ≡ fuel + length ds
      → 0 < a
      → All (λ d. d < base) ds
      → digits base total (value base a ds) rest ≡ digits base fuel a (ds ++ rest)
  unfolding value
  digits-value_from fuel total a [] rest e p h =
      let same : total ≡ fuel = omega (arith, e) in rw same refl
  digits-value_from fuel total a (d ∷ ds) rest e p h =
      digits-value_from (suc fuel) total (a * base + d) ds rest (omega (arith, e)) positive h.1
      ∙ digits-step fuel a d (ds ++ rest) h.0 positive
    where
      positive : 0 < a * base + d
      positive = grind arith

  pub digits-value :
      (fuel d : ℕ) (ds : List ℕ)
      → length ds < fuel
      → d ≢ 0
      → All (λ d. d < base) (d ∷ ds)
      → digits base fuel (value base 0 (d ∷ ds)) [] ≡ d ∷ ds
  unfolding value
  digits-value fuel d ds f n h =
      let start : 0 * base + d ≡ d = grind arith in
      rw start (
        digits-value_from (suc (fuel - length ds - 1)) fuel d ds [] (omega (arith, f))
          (ground (arith, n)) h.1
        ∙ digits-last (fuel - length ds - 1) d (ds ++ []) (ground (arith, n)) h.0
        ∙ ap (λ xs. d ∷ xs) (append-nil ds))

  pub digits-value-nil : (fuel : ℕ) → digits base fuel (value base 0 []) [] ≡ []
  unfolding value
  digits-value-nil fuel = digits-zero fuel []

  -- No more digits than it takes.
  pub length-digits :
      (k fuel n : ℕ) (rest : List ℕ)
      → n < base ^ k
      → length (digits base fuel n rest) ≤ k + length rest
  unfolding digits
  length-digits k zero n rest h = omega arith
  length-digits zero (suc fuel) n rest h =
      let z : n ≡ 0 = omega (arith, h, pow-zero base) in ground (arith, z)
  length-digits (suc k) (suc fuel) n rest h =
      ground (arith, length-digits k fuel (n / base) (n % base ∷ rest) (quotient-lt n k h))

  pub digits-All :
      (fuel n : ℕ) (rest : List ℕ)
      → All (λ d. d < base) rest
      → All (λ d. d < base) (digits base fuel n rest)
  unfolding digits
  digits-All zero n rest h = h
  digits-All (suc fuel) n rest h =
      ground (arith, digits-All fuel (n / base) (n % base ∷ rest), mod-lt n {m = base}, large, h)

  -- The highest digit of a number that is not zero is not zero.
  pub digits-head :
      (fuel n : ℕ) (rest : List ℕ)
      → 0 < n
      → n < base ^ fuel
      → (d : ℕ) × (ds : List ℕ) × (digits base fuel n rest ≡ d ∷ ds) × (0 < d)
  unfolding digits
  digits-head zero n rest p h = absurd (omega (arith, p, h, pow-zero base))
  digits-head (suc fuel) n rest p h = elim (Bool-cases (n / base == 0)) [
    | inl last ↦
        (let low : n % base ≡ n = ground (arith, last, div-add-mod' n base) in
          (n, rest, digits-last fuel n rest p (omega (arith, low, mod-lt n {m = base})), p))
    | inr more ↦
        (let (d, ds, e, q) =
            digits-head fuel (n / base) (n % base ∷ rest) (ground (arith, more))
              (quotient-lt n fuel h) in
          (d, ds, ground (arith, p, e), q))
  ]

  pub value-lt :
      (n : ℕ) (ds : List ℕ) (k : ℕ)
      → n < base ^ k
      → All (λ d. d < base) ds
      → (m : ℕ) → m ≡ k + length ds
      → value base n ds < base ^ m
  unfolding value
  value-lt n [] k h a m e = let same : m ≡ k = omega (arith, e) in rw same h
  value-lt n (d ∷ ds) k h a m e =
      value-lt (n * base + d) ds (suc k) (rw (pow-suc base k) (grind arith)) a.1 m
        (omega (arith, e))
