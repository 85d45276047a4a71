-- ===== src/Attestation/Classified.antt =====
-- The status of a transaction, as `submission_status` of src/reliamesh/solana_attest.py reads it.
use reliamesh.Prelude.{
  ℕ, ◌≤◌, ◌≡◌, ◌⊎◌, inl, inr, arith, not, Option-cases, Bool, true, false, Option, none, some, Text,
  text, text_dec,
}
use reliamesh.Attestation.Values.{
  Value, null, string, integer, object, Members, get, get_as, as_text, as_integer, as_object,
  is_null,
}
use mathlib.Core.Path.{subst}
use reliamesh.Detection.Prune.{mem_text}
use reliamesh.Attestation.Rpc.{max_integer}
use reliamesh.Attestation.Status.{is_error, levels, read_status}

-- Whether a transaction has failed, by the `err` of its status.
pub data HasError : Value → Bool → Type 0 where
  succeeded : HasError null false
  failed_text : (t : Text) → HasError (string t) true
  failed_object : (d : Members) → HasError (object d) true

-- No status is reported as missing; another is an object with a slot, of one of three levels, and is
-- reported by its level and whether its transaction has failed.
pub data IsClassified : Value → Text → Option Bool → Type 0 where
  missing : IsClassified null (text "missing") none
  found :
      (d : Members) (level : Text) (slot : ℕ) (err : Value) (error : Bool)
      → get (text "confirmationStatus") d ≡ some (string level)
      → (level ≡ text "processed") ⊎ ((level ≡ text "confirmed") ⊎ (level ≡ text "finalized"))
      → get (text "slot") d ≡ some (integer slot)
      → slot ≤ max_integer
      → get (text "err") d ≡ some err
      → HasError err error
      → IsClassified (object d) level (some error)

text_at : (k t : Text) (d : Members) → get_as as_text k d ≡ some t → get k d ≡ some (string t)
unfolding get_as as_text
text_at k t d e = elim (Option-cases (get k d)) [
  | inl none_ ↦ absurd (ground (arith, none_, e))
  | inr (string u, there) ↦ ground (arith, there, e)
  | inr (v, there) ↦ absurd (ground (arith, there, e))
]

integer_at :
    (k : Text) (n : ℕ) (d : Members)
    → get_as (as_integer max_integer) k d ≡ some n
    → (get k d ≡ some (integer n)) × (n ≤ max_integer)
unfolding get_as as_integer
integer_at k n d e = elim (Option-cases (get k d)) [
  | inl none_ ↦ absurd (ground (arith, none_, e))
  | inr (integer m, there) ↦ (ground (arith, there, e), ground (arith, there, e))
  | inr (v, there) ↦ absurd (ground (arith, there, e))
]

one_level :
    (level : Text)
    → mem_text level levels ≡ true
    → (level ≡ text "processed") ⊎ ((level ≡ text "confirmed") ⊎ (level ≡ text "finalized"))
unfolding mem_text
one_level level h = elim (text_dec level (text "processed")) [
  | yes a ↦ inl a
  | no n ↦ elim (text_dec level (text "confirmed")) [
    | yes b ↦ inr (inl b)
    | no m ↦ inr (inr (ground (arith, h, n, m)))
  ]
]

error_of : (v : Value) → is_error v ≡ true → HasError v (not (is_null v))
unfolding is_error is_null
error_of null h = succeeded
error_of (string t) h = failed_text t
error_of (object d) h = failed_object d
error_of v h = cc

-- The fields of a status that was read.
record IsRead (d : Members) (level : Text) (error : Bool) : Type 0 where
  slot : ℕ
  err : Value
  has_level : get_as as_text (text "confirmationStatus") d ≡ some level
  has_slot : get_as (as_integer max_integer) (text "slot") d ≡ some slot
  has_err : get (text "err") d ≡ some err
  is_level : mem_text level levels ≡ true
  known : is_error err ≡ true
  is_failure : not (is_null err) ≡ error

read_status-IsRead :
    (d : Members) (level : Text) (error : Bool)
    → read_status (object d) ≡ some (level, error)
    → IsRead d level error
unfolding read_status as_object
read_status-IsRead d level error h =
    elim (Option-cases (get_as as_text (text "confirmationStatus") d)) [
      | inl a ↦ absurd (ground (arith, a, h))
      | inr (l, a) ↦ elim (Option-cases (get_as (as_integer max_integer) (text "slot") d)) [
        | inl b ↦ absurd (ground (arith, a, b, h))
        | inr (slot, b) ↦ elim (Option-cases (get (text "err") d)) [
          | inl c ↦ absurd (ground (arith, a, b, c, h))
          | inr (err, c) ↦ record {
            slot = slot;
            err = err;
            has_level = ground (arith, a, b, c, h);
            has_slot = b;
            has_err = c;
            is_level = ground (arith, a, b, c, h);
            known = ground (arith, a, b, c, h);
            is_failure = ground (arith, a, b, c, h);
          }
        ]
      ]
    ]

pub read_status-IsClassified :
    (status : Value) (level : Text) (error : Bool)
    → read_status status ≡ some (level, error)
    → IsClassified status level (some error)
unfolding read_status as_object
read_status-IsClassified (object d) level error h =
    let r = read_status-IsRead d level error h in
    let (slot, bounded) = integer_at (text "slot") r.slot d r.has_slot in
    found d level r.slot r.err error (text_at (text "confirmationStatus") level d r.has_level)
      (one_level level r.is_level) slot bounded r.has_err
      (subst (HasError r.err) r.is_failure (error_of r.err r.known))
read_status-IsClassified v level error h = cc
