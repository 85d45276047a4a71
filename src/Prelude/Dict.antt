-- ===== src/Prelude/Dict.antt =====
-- A Python dict keyed by texts, in insertion order.
use reliamesh.Prelude.Lists.{length, All, keep}
use reliamesh.Prelude.Strings.{Text, text_dec}
use Prim.Native.Nat.{suc}
use mathlib.Core.Path.{◌≡◌, refl}
use mathlib.Core.Logic.{◌≢◌, ite}
use mathlib.Core.Bool.{Bool, true, false}
use mathlib.Core.List.{List, [], ◌∷◌}
use mathlib.Core.Option.{Option, none, some}
use native.Mathlib.Omega.{arith}

abbrev pub Dict {ℓ} : Type ℓ → Type ℓ
Dict V = List (Text × V)

module _ {ℓ} {V : Type ℓ} where
  -- `d.get(k)`
  unfoldable pub lookup : Text → Dict V → Option V
  lookup k [] = none
  lookup k (e ∷ d) = ite (text_dec k e.0) (some e.1) (lookup k d)

  -- `k in d`
  abbrev pub contains : Text → Dict V → Bool
  contains k d = elim (lookup k d) [ none ↦ false | some _ ↦ true ]

  -- `d[k] = v`
  unfoldable pub insert : Text → V → Dict V → Dict V
  insert k v [] = (k, v) ∷ []
  insert k v (e ∷ d) = ite (text_dec k e.0) ((k, v) ∷ d) (e ∷ insert k v d)

  -- `del d[k]`, every entry with the key
  unfoldable pub erase : Text → Dict V → Dict V
  erase k [] = []
  erase k (e ∷ d) = ite (text_dec k e.0) (erase k d) (e ∷ erase k d)

  pub lookup-insert :
      (j k : Text) (v : V) (d : Dict V)
      → lookup j (insert k v d) ≡ ite (text_dec j k) (some v) (lookup j d)
  unfolding lookup insert
  lookup-insert j k v [] = refl
  lookup-insert j k v (e ∷ d) = ground (arith, lookup-insert j k v d)

  pub lookup-insert_self : (k : Text) (v : V) (d : Dict V) → lookup k (insert k v d) ≡ some v
  lookup-insert_self k v d = ground (arith, lookup-insert k k v d)

  pub lookup-insert_ne :
      (j k : Text) (v : V) (d : Dict V) → j ≢ k → lookup j (insert k v d) ≡ lookup j d
  lookup-insert_ne j k v d h = ground (arith, lookup-insert j k v d)

  pub lookup-erase_self : (k : Text) (d : Dict V) → lookup k (erase k d) ≡ none
  unfolding lookup erase
  lookup-erase_self k [] = refl
  lookup-erase_self k (e ∷ d) = ground (arith, lookup-erase_self k d)

  pub lookup-erase_ne : (j k : Text) (d : Dict V) → j ≢ k → lookup j (erase k d) ≡ lookup j d
  unfolding lookup erase
  lookup-erase_ne j k [] h = refl
  lookup-erase_ne j k (e ∷ d) h = ground (arith, lookup-erase_ne j k d h)

  pub lookup-erase :
      (j k : Text) (d : Dict V) → lookup j (erase k d) ≡ ite (text_dec j k) none (lookup j d)
  lookup-erase j k d = ground (arith, lookup-erase_self k d, lookup-erase_ne j k d)

  pub length-insert_old :
      (k : Text) (v w : V) (d : Dict V) → lookup k d ≡ some w → length (insert k v d) ≡ length d
  unfolding lookup insert
  length-insert_old k v w [] h = cc
  length-insert_old k v w (e ∷ d) h = ground (arith, length-insert_old k v w d)

  pub length-insert_new :
      (k : Text) (v : V) (d : Dict V) → lookup k d ≡ none → length (insert k v d) ≡ suc (length d)
  unfolding lookup insert
  length-insert_new k v [] h = refl
  length-insert_new k v (e ∷ d) h = ground (arith, length-insert_new k v d)

  -- A property of all values goes on to what is found, and is kept by an insertion.
  pub All-lookup {κ} :
      (P : V → Type κ) (k : Text) (v : V) (d : Dict V)
      → All (λ e. P e.1) d
      → lookup k d ≡ some v
      → P v
  unfolding lookup
  All-lookup P k v [] h e = cc
  All-lookup P k v (x ∷ d) h e = ground (arith, All-lookup P k v d h.1)

  pub All-insert {κ} :
      (P : V → Type κ) (k : Text) (v : V) (d : Dict V)
      → All (λ e. P e.1) d
      → P v
      → All (λ e. P e.1) (insert k v d)
  unfolding insert
  All-insert P k v [] h p = (p, tt)
  All-insert P k v (x ∷ d) h p = ground (arith, All-insert P k v d h.1 p)

  -- No key is listed twice.
  abbrev pub IsDistinct : Dict V → Type ℓ
  IsDistinct [] = Unit
  IsDistinct (e ∷ d) = (lookup e.0 d ≡ none) × IsDistinct d

  pub insert-IsDistinct : (k : Text) (v : V) (d : Dict V) → IsDistinct d → IsDistinct (insert k v d)
  unfolding lookup insert
  insert-IsDistinct k v [] h = (refl, tt)
  insert-IsDistinct k v (e ∷ d) h =
      ground (arith, insert-IsDistinct k v d h.1, lookup-insert e.0 k v d)

  pub lookup-keep-none :
      (p : Text × V → Bool) (k : Text) (d : Dict V) → lookup k d ≡ none → lookup k (keep p d) ≡ none
  unfolding lookup
  lookup-keep-none p k [] h = refl
  lookup-keep-none p k (e ∷ d) h = ground (arith, lookup-keep-none p k d)

  pub lookup-keep :
      (p : Text × V → Bool) (k : Text) (v : V) (d : Dict V)
      → lookup k d ≡ some v
      → p (k, v) ≡ true
      → lookup k (keep p d) ≡ some v
  unfolding lookup
  lookup-keep p k v [] h q = h
  lookup-keep p k v ((j, w) ∷ d) h q = ground (arith, lookup-keep p k v d)

  pub keep-IsDistinct : (p : Text × V → Bool) (d : Dict V) → IsDistinct d → IsDistinct (keep p d)
  keep-IsDistinct p [] h = tt
  keep-IsDistinct p (e ∷ d) h =
      ground (arith, keep-IsDistinct p d h.1, lookup-keep-none p e.0 d h.0)

  pub erase-IsDistinct : (k : Text) (d : Dict V) → IsDistinct d → IsDistinct (erase k d)
  unfolding erase
  erase-IsDistinct k [] h = tt
  erase-IsDistinct k (e ∷ d) h = ground (arith, erase-IsDistinct k d h.1, lookup-erase_ne e.0 k d)

  erase_absent : (k : Text) (d : Dict V) → lookup k d ≡ none → erase k d ≡ d
  unfolding lookup erase
  erase_absent k [] h = refl
  erase_absent k (e ∷ d) h = ground (arith, erase_absent k d)

  pub length-erase :
      (k : Text) (v : V) (d : Dict V)
      → IsDistinct d
      → lookup k d ≡ some v
      → suc (length (erase k d)) ≡ length d
  unfolding lookup erase
  length-erase k v [] u h = cc
  length-erase k v (e ∷ d) u h = ground (arith, length-erase k v d u.1, erase_absent k d)

  pub All-own : (d : Dict V) → IsDistinct d → All (λ e. lookup e.0 d ≡ some e.1) d
  unfolding lookup
  All-own [] u = tt
  All-own (e ∷ d) u = (ground arith, later e d d u.0 (All-own d u.1))
    where
      later :
          (e : Text × V) (d r : Dict V)
          → lookup e.0 r ≡ none
          → All (λ x. lookup x.0 r ≡ some x.1) d
          → All (λ x. lookup x.0 (e ∷ r) ≡ some x.1) d
      later e [] r n a = tt
      later e (x ∷ d) r n a = (ground arith, later e d r n a.1)
