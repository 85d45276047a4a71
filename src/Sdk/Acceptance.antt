-- ===== src/Sdk/Acceptance.antt =====
-- The events that sdk/python/src/reliamesh_sdk/events.py makes are events of src/reliamesh/protocol.py.
use reliamesh.Prelude.{
  ℕ, ◌≤◌, ◌≡◌, refl, ap, ◌∙◌, Bool, true, false, Option, none, some, List, [], ◌∷◌, map, Text, text,
  length, ◌==◌, any, ok, arith, Option-cases, Bool-cases, inl, inr,
}
use reliamesh.Host.{Host, Instant}
use reliamesh.Detection.Prune.{mem_text}
use reliamesh.Storage.Sqlite.Tables.{same}
use reliamesh.Attestation.Values.{
  Value, null, boolean, integer, number, Members, member, close, get, has, get_as,
}
use reliamesh.Attestation.Writes.{keys_within}
use reliamesh.Protocol.Event.{FailureType, VersionField, field_text, is_classified}
use reliamesh.Protocol.Fields.{Formats, as_identifier, as_failure}
use reliamesh.Protocol.Validation.{
  is_uuid_from, replace_z, optional, as_counter, as_boolean, are_labels, as_latency, is_latency,
}
use reliamesh.Sdk.Fields.{is_label, is_counter, is_boolean, is_latency_value}
use reliamesh.Sdk.Correspondence.{label_identifier, IsRead, one_of-failure, outcome_of}
use reliamesh.Sdk.Events.{put, has_all, absent_or, are_identifiers, is_none, check_failure}

-- What the interpreter documents of its formats: a canonical UUID is canonical, and has the pattern; a
-- time is written with a T and an offset, not a Z, in 40 characters at most, and is read back.
pub record IsFormats (f : Formats) : Type 0 where
  pub canonical_again : (t c : Text) → f.canonical_uuid t ≡ some c → f.canonical_uuid c ≡ some c
  pub canonical_length : (t c : Text) → f.canonical_uuid t ≡ some c → length c ≡ 36
  pub canonical_pattern : (t c : Text) → f.canonical_uuid t ≡ some c → is_uuid_from 0 c ≡ true
  pub read_back :
      (s : Text) (t : Instant) → f.from_iso s ≡ some t → f.from_iso (f.to_iso t) ≡ some t
  pub short : (s : Text) (t : Instant) → f.from_iso s ≡ some t → length (f.to_iso t) ≤ 40
  pub has_t :
      (s : Text) (t : Instant) → f.from_iso s ≡ some t → any (λ c. c == b'T') (f.to_iso t) ≡ true
  pub no_z : (s : Text) (t : Instant) → f.from_iso s ≡ some t → replace_z (f.to_iso t) ≡ f.to_iso t

pub get-put_same : (k : Text) (v : Value) (d : Members) → get k (put k v d) ≡ some v
unfolding get put
get-put_same k v close = ground arith
get-put_same k v (member j w d) = ground (arith, get-put_same k v d)

pub get-put_other :
    (j k : Text) (v : Value) (d : Members) → same j k ≡ false → get j (put k v d) ≡ get j d
unfolding get put
get-put_other j k v close h = ground (arith, h)
get-put_other j k v (member i w d) h = ground (arith, h, get-put_other j k v d h)

pub keys_within-put :
    (keys : List Text) (k : Text) (v : Value) (d : Members)
    → mem_text k keys ≡ true
    → keys_within keys d ≡ true
    → keys_within keys (put k v d) ≡ true
unfolding keys_within put
keys_within-put keys k v close m h = ground (arith, m)
keys_within-put keys k v (member j w d) m h = ground (arith, m, h, keys_within-put keys k v d m)

has-put : (j k : Text) (v : Value) (d : Members) → has j d ≡ true → has j (put k v d) ≡ true
unfolding has
has-put j k v d h = elim (Bool-cases (same j k)) [
  | inl e ↦ let same_key : j ≡ k = ground (arith, e) in ground (arith, same_key, get-put_same k v d)
  | inr n ↦ ground (arith, h, get-put_other j k v d n)
]

pub has_all-put :
    (keys : List Text) (k : Text) (v : Value) (d : Members)
    → has_all keys d ≡ true
    → has_all keys (put k v d) ≡ true
unfolding has_all
has_all-put [] k v d h = refl
has_all-put (j ∷ keys) k v d h = ground (arith, h, has-put j k v d, has_all-put keys k v d)

optional_label :
    (o : Option Value)
    → absent_or is_label o ≡ true
    → (t : Option Text) × (optional as_identifier o ≡ some t)
unfolding absent_or optional
optional_label none h = (none, refl)
optional_label (some null) h = (none, refl)
optional_label (some v) h = let (t, e) = label_identifier v h in (some t, ground (arith, e))

pub are_labels-identifiers :
    (keys : List VersionField) (d : Members)
    → are_identifiers (map field_text keys) d ≡ true
    → are_labels keys d ≡ true
unfolding are_identifiers are_labels
are_labels-identifiers [] d h = refl
are_labels-identifiers (k ∷ keys) d h =
    let here : absent_or is_label (get (field_text k) d) ≡ true = ground (arith, h) in
    let (t, e) = optional_label (get (field_text k) d) here in
    ground (arith, h, e, are_labels-identifiers keys d)

pub identifier_there :
    (k : Text) (d : Members)
    → has k d ≡ true
    → absent_or is_label (get k d) ≡ true
    → (t : Text) × (get_as as_identifier k d ≡ some t)
unfolding has absent_or get_as
identifier_there k d there h = elim (Option-cases (get k d)) [
  | inl nothing ↦ absurd (ground (arith, there, nothing))
  | inr (v, e) ↦
      let (t, good) = label_identifier v (ground (arith, h, e)) in (t, ground (arith, e, good))
]

pub counter_there :
    (maximum : ℕ) (o : Option Value)
    → absent_or (is_counter maximum) o ≡ true
    → (n : Option ℕ) × (optional (as_counter maximum) o ≡ some n)
unfolding absent_or is_counter optional as_counter
counter_there maximum none h = (none, refl)
counter_there maximum (some (integer n)) h = (some n, ground (arith, h))
counter_there maximum (some v) h = cc

pub boolean_there :
    (o : Option Value) → absent_or is_boolean o ≡ true → (b : Bool) × (as_boolean o ≡ some b)
unfolding absent_or is_boolean as_boolean
boolean_there none h = (false, refl)
boolean_there (some (boolean b)) h = (b, refl)
boolean_there (some v) h = cc

no_failure_there : (o : Option Value) → is_none o ≡ true → optional as_failure o ≡ some none
unfolding is_none optional
no_failure_there none e = refl
no_failure_there (some null) e = refl
no_failure_there (some v) e = cc

optional-some :
    (v : Value) (t : FailureType)
    → as_failure v ≡ some t
    → optional as_failure (some v) ≡ some (some t)
unfolding optional as_failure
optional-some null t e = cc
optional-some v t e = ground (arith, e)

pub failure_there :
    (is_failed : Bool) (d : Members)
    → check_failure is_failed d ≡ ok tt
    → (t : Option FailureType) × (optional as_failure (get (text "failure_type") d) ≡ some t)
      × (is_classified (outcome_of is_failed) t ≡ true)
unfolding check_failure is_classified IsRead outcome_of
failure_there false d e =
    (none, no_failure_there (get (text "failure_type") d) (ground (arith, e)), refl)
failure_there true d e =
    let (t, v, there, found) = one_of-failure (get (text "failure_type") d) (ground (arith, e)) in
    (some t, ap (optional as_failure) there ∙ optional-some v t found, refl)

module _ (h : Host) (f : Formats) (float_of : Text → h.Float) where
  pub latency_there :
      (o : Option Value)
      → absent_or (is_latency_value f) o ≡ true
      → (x : Option h.Float) × (optional (as_latency h f float_of) o ≡ some x)
  unfolding absent_or is_latency_value optional as_latency is_latency
  latency_there none e = (none, refl)
  latency_there (some (integer n)) e = (some (h.of_ℕ n), ground (arith, e))
  latency_there (some (number t)) e = (some (float_of t), ground (arith, e))
  latency_there (some v) e = cc
