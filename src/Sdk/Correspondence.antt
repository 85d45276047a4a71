-- ===== src/Sdk/Correspondence.antt =====
-- Each test of a member in sdk/python/src/reliamesh_sdk/events.py against the reading of that member
-- in src/reliamesh/protocol.py.
use reliamesh.Prelude.{
  ◌≡◌, refl, ap, ◌∙◌, Bool, true, false, Option, none, some, List, [], ◌∷◌, map, Text, text,
  text_dec, All, all_chars, arith,
}
use reliamesh.Detection.Prune.{mem_text}
use reliamesh.Attestation.Values.{Value, string, Members, member, close, get, get_as}
use reliamesh.Attestation.Writes.{keys_within}
use reliamesh.Protocol.Event.{Outcome, operation_text, failure_text, field_text}
use reliamesh.Protocol.Fields.{
  as_identifier, is_identifier, is_identifier_char, is_alphanumeric, named, as_operation,
  as_failure, as_outcome, operations, failure_types, fields,
}
use reliamesh.Sdk.Fields.{
  starts_identifier, continues_identifier, matches_identifier, supported_operations,
  supported_failures, allowed, is_label, is_one_of, read_outcome,
}

all_chars-continues :
    (cs : Text) → all_chars continues_identifier cs ≡ true → all_chars is_identifier_char cs ≡ true
unfolding continues_identifier starts_identifier is_identifier_char is_alphanumeric
all_chars-continues [] h = refl
all_chars-continues (c ∷ cs) h = ground (arith, h, all_chars-continues cs)

matches_identifier-IsIdentifier : (t : Text) → matches_identifier t ≡ true → is_identifier t ≡ true
unfolding matches_identifier is_identifier starts_identifier is_alphanumeric
matches_identifier-IsIdentifier [] h = cc
matches_identifier-IsIdentifier (c ∷ cs) h = ground (arith, h, all_chars-continues cs)

-- What the SDK takes for an identifier, the server does.
pub label_identifier : (v : Value) → is_label v ≡ true → (t : Text) × (as_identifier v ≡ some t)
unfolding is_label as_identifier
label_identifier (string t) h = (t, ground (arith, matches_identifier-IsIdentifier t h))
label_identifier v h = cc

-- A text among those of an enumeration names a member of it.
named_there {ℓ} :
    {A : Type ℓ} (f : A → Text) (xs : List A) (t : Text)
    → mem_text t (map f xs) ≡ true
    → (x : A) × (named f xs t ≡ some x)
unfolding mem_text named
named_there f [] t h = cc
named_there f (x ∷ xs) t h = elim (text_dec t (f x)) [
  | yes e ↦ (x, ground (arith, e))
  | no n ↦
      let (y, there) = named_there f xs t (ground (arith, h, n)) in (y, ground (arith, n, there))
]

operations_supported : map operation_text operations ≡ supported_operations
unfolding operation_text
operations_supported = refl

failures_supported : map failure_text failure_types ≡ supported_failures
unfolding failure_text
failures_supported = refl

-- A member that is there and reads as a value.
unfoldable pub IsRead {ℓ} : {A : Type ℓ} → (Value → Option A) → Option Value → Type ℓ
IsRead {A = A} read o = (a : A) × (v : Value) × (o ≡ some v) × (read v ≡ some a)

pub get_as-there {ℓ} :
    {A : Type ℓ} (read : Value → Option A) (k : Text) (d : Members) (v : Value) (a : A)
    → get k d ≡ some v
    → read v ≡ some a
    → get_as read k d ≡ some a
unfolding get_as
get_as-there read k d v a there e = rw (get_as, there) e

pub one_of-operation :
    (o : Option Value) → is_one_of supported_operations o ≡ true → IsRead as_operation o
unfolding is_one_of as_operation IsRead
one_of-operation none h = cc
one_of-operation (some (string t)) h =
    let (x, e) =
      named_there operation_text operations t (ap (mem_text t) operations_supported ∙ h) in
    (x, string t, refl, e)
one_of-operation (some v) h = cc

pub one_of-failure :
    (o : Option Value) → is_one_of supported_failures o ≡ true → IsRead as_failure o
unfolding is_one_of as_failure IsRead
one_of-failure none h = cc
one_of-failure (some (string t)) h =
    let (x, e) =
      named_there failure_text failure_types t (ap (mem_text t) failures_supported ∙ h) in
    (x, string t, refl, e)
one_of-failure (some v) h = cc

-- the outcome that the SDK reads as a failure, or not
unfoldable pub outcome_of : Bool → Outcome
outcome_of true = Outcome.failure
outcome_of false = Outcome.success

pub read_outcome-there :
    (o : Option Value) (is_failed : Bool)
    → read_outcome o ≡ some is_failed
    → (v : Value) × (o ≡ some v) × (as_outcome v ≡ some (outcome_of is_failed))
unfolding read_outcome as_outcome outcome_of
read_outcome-there none is_failed h = cc
read_outcome-there (some (string t)) is_failed h = (
  string t,
  refl,
  elim (text_dec t (text "success")) [
    | yes e ↦ ground (arith, h, e)
    | no n ↦ elim (text_dec t (text "failure")) [
      | yes e ↦ ground (arith, h, n, e)
      | no m ↦ ground (arith, h, n, m)
    ]
  ],
)
read_outcome-there (some v) is_failed h = cc

-- the keys of an object that are within some texts are within others that contain these
keys_within-any :
    (keys others : List Text)
    → ((k : Text) → mem_text k keys ≡ true → mem_text k others ≡ true)
    → (d : Members) → keys_within keys d ≡ true
    → keys_within others d ≡ true
unfolding keys_within
keys_within-any keys others sub close h = refl
keys_within-any keys others sub (member k v d) h =
    ground (arith, h, sub k, keys_within-any keys others sub d)

mem_text-all :
    (keys others : List Text)
    → All (λ k. mem_text k others ≡ true) keys
    → (k : Text) → mem_text k keys ≡ true
    → mem_text k others ≡ true
unfolding mem_text
mem_text-all [] others a k h = cc
mem_text-all (j ∷ keys) others a k h = elim (text_dec k j) [
  | yes e ↦ rw e a.0
  | no n ↦ mem_text-all keys others a.1 k (ground (arith, h, n))
]

every_allowed : All (λ k. mem_text k fields ≡ true) allowed
unfolding mem_text text_dec field_text
every_allowed = search

-- An object with no field but those that the SDK allows has none but those of the server's model.
pub keys_within-allowed : (d : Members) → keys_within allowed d ≡ true → keys_within fields d ≡ true
keys_within-allowed d h =
    keys_within-any allowed fields (mem_text-all allowed fields every_allowed) d h
