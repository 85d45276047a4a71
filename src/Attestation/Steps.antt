-- ===== src/Attestation/Steps.antt =====
-- Calls of src/reliamesh/solana_attest.py in sequence: the log that the parts of one leave.
use reliamesh.Prelude.{◌≡◌, refl, Bool, true, false, Option, none, some, Result, ok, err}
use mathlib.Core.Path.{subst}
use reliamesh.Attestation.Base58.{Error}
use reliamesh.Attestation.Rpc.{Log, Rpc, ◌>>=◌, raise_if, lift, require, pure}

-- A call leaves a log with a property, if it finds one.
unfoldable pub Keeps : {A : Type 0} → (Log → Type 0) → Rpc A → Type 0
Keeps P m = (log : Log) → P log → P (m log).1

module _ {A : Type 0} (P : Log → Type 0) where
  pub pure-Keeps : (a : A) → Keeps P (pure a)
  unfolding Keeps pure
  pure-Keeps a log h = h

  pub lift-Keeps : (r : Result Error A) → Keeps P (lift r)
  unfolding Keeps lift
  lift-Keeps r log h = h

  pub require-Keeps : (e : Error) (o : Option A) → Keeps P (require e o)
  unfolding Keeps require
  require-Keeps e none log h = h
  require-Keeps e (some a) log h = h

pub raise_if-Keeps : (P : Log → Type 0) (b : Bool) (e : Error) → Keeps P (raise_if b e)
unfolding Keeps raise_if
raise_if-Keeps P b e log h = h

module _ {A B : Type 0} where
  pub >>=-Keeps :
      (P : Log → Type 0) (m : Rpc A) (f : A → Rpc B)
      → Keeps P m
      → ((a : A) → Keeps P (f a))
      → Keeps P (m >>= f)
  unfolding Keeps ◌>>=◌
  >>=-Keeps P m f first next log h = go (m log) (first log h)
    where
      go :
          (r : Result Error A × Log)
          → P r.1
          → P (elim r.0 as (λ _. Result Error B × Log) [ ok a ↦ f a r.1 | err e ↦ (err e, r.1) ]).1
      go (ok a, log) h = next a log h
      go (err e, log) h = h

-- Where a call returns, its result and the log that it leaves are so related.
unfoldable pub Returns : {A : Type 0} → (A → Log → Type 0) → Rpc A → Log → Type 0
Returns Q m log = (a : _) (log' : Log) → m log ≡ (ok a, log') → Q a log'

module _ {A : Type 0} (Q : A → Log → Type 0) (log : Log) where
  pub pure-Returns : (a : A) → Q a log → Returns Q (pure a) log
  unfolding Returns pure
  pure-Returns a h b log' e = subst (λ (p : Result Error A × Log). IsReturned p) e h
    where
      IsReturned : Result Error A × Log → Type 0
      IsReturned (ok b, l) = Q b l
      IsReturned (err e, l) = Unit

  pub lift-Returns : (r : Result Error A) → ((a : A) → r ≡ ok a → Q a log) → Returns Q (lift r) log
  unfolding Returns lift pure
  lift-Returns (ok a) h b log' e' = pure-Returns a (h a refl) b log' e'
  lift-Returns (err e) h b log' e' = cc

  pub require-Returns :
      (e : Error) (o : Option A) → ((a : A) → o ≡ some a → Q a log) → Returns Q (require e o) log
  unfolding Returns require pure
  require-Returns e none h b log' e' = cc
  require-Returns e (some a) h b log' e' = pure-Returns a (h a refl) b log' e'

pub raise_if-Returns :
    (Q : Unit {0} → Log → Type 0) (log : Log) (b : Bool) (e : Error)
    → ((b ≡ false) → Q tt log)
    → Returns Q (raise_if b e) log
unfolding Returns raise_if pure
raise_if-Returns Q log true e h b log' e' = cc
raise_if-Returns Q log false e h b log' e' = pure-Returns Q log tt (h refl) b log' e'

module _ {A B : Type 0} where
  pub >>=-Returns :
      (Q : B → Log → Type 0) (log : Log) (m : Rpc A) (f : A → Rpc B)
      → Returns (λ a l. Returns Q (f a) l) m log
      → Returns Q (m >>= f) log
  unfolding Returns ◌>>=◌
  >>=-Returns Q log m f h b log' e = go (m log) (h) e
    where
      go :
          (r : Result Error A × Log)
          → ((a : A) (l : Log) → r ≡ (ok a, l) → (b : B) (l' : Log) → f a l ≡ (ok b, l') → Q b l')
          → elim r.0 as (λ _. Result Error B × Log) [ ok a ↦ f a r.1 | err e ↦ (err e, r.1) ]
            ≡ (ok b, log')
          → Q b log'
      go (ok a, l) h e = h a l refl b log' e
      go (err e, l) h e' = cc

  -- a log that the first part may leave, and one that the rest leaves after what the first returned
  pub returned-Keeps :
      (P : Log → Type 0) (log : Log) (m : Rpc A) (f : A → Rpc B)
      → P (m log).1
      → Returns (λ a l. P (f a l).1) m log
      → P ((m >>= f) log).1
  unfolding Returns ◌>>=◌
  returned-Keeps P log m f kept next = go (m log) kept next
    where
      go :
          (r : Result Error A × Log)
          → P r.1
          → ((a : A) (l : Log) → r ≡ (ok a, l) → P (f a l).1)
          → P (elim r.0 as (λ _. Result Error B × Log) [ ok a ↦ f a r.1 | err e ↦ (err e, r.1) ]).1
      go (ok a, l) kept next = next a l refl
      go (err e, l) kept next = kept
