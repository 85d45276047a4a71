-- ===== src/Prelude/Outcome.antt =====
-- Python's exceptions as values: a call returns, or raises one of the errors of its component.
use mathlib.Core.Path.{◌≡◌, refl, sym, ap, ◌∙◌}
use mathlib.Core.Logic.{◌⊎◌, inl, inr}
use mathlib.Core.Option.{Option, none, some}
use mathlib.Core.Bool.{Bool, true, false}

pub data Result {ℓ} (E : Type ℓ) (A : Type ℓ) : Type ℓ where
  ok : A → Result E A
  err : E → Result E A

infixl 5 ◌>>=◌ ◌>>◌
abbrev pub ◌>>=◌ {ℓ} : {E A B : Type ℓ} → Result E A → (A → Result E B) → Result E B
ok a >>= f = f a
err e >>= f = err e

abbrev pub ◌>>◌ {ℓ} : {E B : Type ℓ} → Result E (Unit {ℓ}) → Result E B → Result E B
m >> k = m >>= λ _. k

-- `if c: raise e`
abbrev pub raise_if {ℓ} : {E : Type ℓ} → Bool → E → Result E (Unit {ℓ})
raise_if true e = err e
raise_if false e = ok tt

abbrev pub require {ℓ} : {E A : Type ℓ} → E → Option A → Result E A
require e none = err e
require e (some a) = ok a

module _ {ℓ} {E A B : Type ℓ} {b : B} where
  -- A call that returned: its first part returned, and so did the rest.
  pub >>=-eq-ok :
      (m : Result E A) (rest : A → Result E B)
      → (m >>= rest) ≡ ok b
      → (a : A) × (m ≡ ok a) × (rest a ≡ ok b)
  >>=-eq-ok (err e) rest returned = cc
  >>=-eq-ok (ok a) rest returned = (a, refl, returned)

pub Result-cases {ℓ} :
    {E A : Type ℓ} (r : Result E A) → ((a : A) × (r ≡ ok a)) ⊎ ((e : E) × (r ≡ err e))
Result-cases (ok a) = inl (a, refl)
Result-cases (err e) = inr (e, refl)

-- A guard that let a call go on, and what followed.
pub raise_if-ok {ℓ} :
    {E B : Type ℓ} {m : Result E B} {b : B} (c : Bool) (e : E)
    → (raise_if c e >> m) ≡ ok b
    → (c ≡ false) × (m ≡ ok b)
raise_if-ok true e h = cc
raise_if-ok false e h = (refl, h)

-- A call whose first part is known goes on with the rest.
pub >>=-after {ℓ} :
    {E A B : Type ℓ} {r : Result E B} (m : Result E A) (rest : A → Result E B) (a : A)
    → m ≡ ok a
    → (m >>= rest) ≡ r
    → rest a ≡ r
>>=-after m rest a known h = ap (λ x. x >>= rest) (sym known) ∙ h

-- A value that was there, and what followed.
pub require-ok {ℓ} :
    {E A B : Type ℓ} {b : B} {rest : A → Result E B} (e : E) (o : Option A)
    → (require e o >>= rest) ≡ ok b
    → (a : A) × (o ≡ some a) × (rest a ≡ ok b)
require-ok e none h = cc
require-ok e (some a) h = (a, refl, h)
