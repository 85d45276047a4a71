-- ===== src/Protocol/Validation.antt =====
-- The validation of `Event` in src/reliamesh/protocol.py: what its fields and validators accept of a
-- JSON object.
use reliamesh.Prelude.{
  ℕ, ◌+◌, Bool, true, false, Option, none, some, List, [], ◌∷◌, ◌++◌, Text, text, length, leb, ◌==◌,
  any, if◌then◌else◌, not, ◌&&◌, ◌||◌, Result, ok, ◌>>=◌, ◌>>◌, raise_if, require,
}
use reliamesh.Host.{Host, Instant}
use reliamesh.Storage.Common.{is_hex}
use reliamesh.Storage.Sqlite.Tables.{same}
use reliamesh.Attestation.Values.{
  Value, null, boolean, integer, number, Members, get, get_as, has_text, as_text,
}
use reliamesh.Attestation.Writes.{keys_within}
use reliamesh.Protocol.Event.{Event, VersionField, field_text, version_fields, is_classified}
use reliamesh.Protocol.Fields.{Formats, as_identifier, as_operation, as_failure, as_outcome, fields}

pub data Invalid : Type 0 where
  extra_field wrong_version invalid_event_id invalid_timestamp invalid_identifier invalid_operation
        invalid_outcome invalid_failure_type invalid_latency invalid_counter invalid_synthetic
        misclassified :
      Invalid

-- `[0-9a-f]{8}-[0-9a-f]{4}-[0-9a-f]{4}-[0-9a-f]{4}-[0-9a-f]{12}`, from a position
unfoldable pub is_uuid_from : ℕ → Text → Bool
is_uuid_from i [] = i == 36
is_uuid_from i (c ∷ cs) =
    (if (i == 8) || ((i == 13) || ((i == 18) || (i == 23))) then c == b'-' else is_hex c)
    && is_uuid_from (i + 1) cs

-- `value.replace("Z", "+00:00")`
unfoldable pub replace_z : Text → Text
replace_z [] = []
replace_z (c ∷ cs) = if c == b'Z' then text "+00:00" ++ replace_z cs else c ∷ replace_z cs

-- a member that is absent or None, or a value of a type
unfoldable pub optional {ℓ} : {A : Type ℓ} → (Value → Option A) → Option Value → Option (Option A)
optional f none = some none
optional f (some null) = some none
optional f (some v) = elim (f v) [ none ↦ none | some a ↦ some (some a) ]

unfoldable pub as_counter : ℕ → Value → Option ℕ
as_counter maximum (integer n) = if leb n maximum then some n else none
as_counter maximum _ = none

unfoldable pub as_boolean : Option Value → Option Bool
as_boolean none = some false
as_boolean (some (boolean b)) = some b
as_boolean (some _) = none

-- the eleven optional labels, if each is one
unfoldable pub are_labels : List VersionField → Members → Bool
are_labels [] d = true
are_labels (field ∷ rest) d = elim (optional as_identifier (get (field_text field) d)) [
  | none ↦ false
  | some _ ↦ are_labels rest d
]

unfoldable pub label_of : Members → VersionField → Option Text
label_of d field = elim (optional as_identifier (get (field_text field) d)) [
  | none ↦ none
  | some label ↦ label
]

-- `schema_version`, which is "1.0" by default
unfoldable pub is_wrong_version : Members → Bool
is_wrong_version d = elim (get (text "schema_version") d) [
  | none ↦ false
  | some _ ↦ not (has_text (text "schema_version") (text "1.0") d)
]

module _ (h : Host) (f : Formats) (float_of : Text → h.Float) where
  -- `Field(ge=0, le=86_400_000, allow_inf_nan=False)`, of a float
  unfoldable pub is_latency : Text → Bool
  is_latency t = f.is_finite t && (f.at_least 0 t && f.at_most 86_400_000 t)

  unfoldable pub as_latency : Value → Option h.Float
  as_latency (integer n) = if leb n 86_400_000 then some (h.of_ℕ n) else none
  as_latency (number t) = if is_latency t then some (float_of t) else none
  as_latency _ = none

  -- `valid_uuid`, and the constraints of its field
  unfoldable pub valid_uuid : Text → Bool
  valid_uuid value =
      (length value == 36)
      && (is_uuid_from 0 value
          && elim (f.canonical_uuid value) [ none ↦ false | some canonical ↦ same canonical value ])

  -- `aware_timestamp`, of a text
  unfoldable pub aware_timestamp : Text → Option Instant
  aware_timestamp value =
      if leb (length value) 40 && any (λ c. c == b'T') value
      then f.from_iso (replace_z value)
      else none

  unfoldable pub parse_event : Members → Result Invalid (Event h)
  parse_event d = do
    raise_if (not (keys_within fields d)) extra_field
    raise_if (is_wrong_version d) wrong_version
    event_id ← require invalid_event_id (get_as as_text (text "event_id") d)
    raise_if (not (valid_uuid event_id)) invalid_event_id
    given_time ← require invalid_timestamp (get_as as_text (text "timestamp") d)
    timestamp ← require invalid_timestamp (aware_timestamp given_time)
    deployment_id ← require invalid_identifier (get_as as_identifier (text "deployment_id") d)
    agent_id ← require invalid_identifier (get_as as_identifier (text "agent_id") d)
    operation ← require invalid_operation (get_as as_operation (text "operation") d)
    outcome ← require invalid_outcome (get_as as_outcome (text "outcome") d)
    failure_type ← require invalid_failure_type (optional as_failure (get (text "failure_type") d))
    latency_ms ← require invalid_latency (optional as_latency (get (text "latency_ms") d))
    input_tokens ←
        require invalid_counter (optional (as_counter 1_000_000_000) (get (text "input_tokens") d))
    output_tokens ←
        require invalid_counter (optional (as_counter 1_000_000_000) (get (text "output_tokens") d))
    retry_count ←
        require invalid_counter (optional (as_counter 1_000_000) (get (text "retry_count") d))
    raise_if (not (are_labels version_fields d)) invalid_identifier
    synthetic ← require invalid_synthetic (as_boolean (get (text "synthetic") d))
    raise_if (not (is_classified outcome failure_type)) misclassified
    ok (record {
      event_id = event_id;
      timestamp = timestamp;
      deployment_id = deployment_id;
      agent_id = agent_id;
      operation = operation;
      outcome = outcome;
      failure_type = failure_type;
      latency_ms = latency_ms;
      input_tokens = input_tokens;
      output_tokens = output_tokens;
      retry_count = retry_count;
      label = label_of d;
      synthetic = synthetic;
    })
