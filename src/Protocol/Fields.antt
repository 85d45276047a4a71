-- ===== src/Protocol/Fields.antt =====
-- The fields of an event of src/reliamesh/protocol.py, and how their values are read.
use reliamesh.Prelude.{
  ℕ, Bool, false, Option, none, some, List, [], ◌∷◌, ◌++◌, map, Text, text, length, in_range,
  all_chars, leb, ◌==◌, if◌then◌else◌, ◌&&◌, ◌||◌, any,
}
use reliamesh.Host.{Instant}
use reliamesh.Storage.Sqlite.Tables.{same}
use reliamesh.Attestation.Values.{Value, string}
use reliamesh.Protocol.Event.{
  Operation, Outcome, FailureType, operation_text, failure_text, field_text, version_fields,
}

-- What the interpreter reads and writes: `str(UUID(t))`; `datetime.fromisoformat(t)` of a time with an
-- offset, in UTC; `isoformat()` of one; and of a float, by its text, whether it is at least or at most
-- an integer, and whether it is finite. `none` is a ValueError, or a time without an offset.
pub record Formats : Type 0 where
  pub canonical_uuid : Text → Option Text
  pub from_iso : Text → Option Instant
  pub to_iso : Instant → Text
  pub at_least : ℕ → Text → Bool
  pub at_most : ℕ → Text → Bool
  pub is_finite : Text → Bool

unfoldable pub is_alphanumeric : ℕ → Bool
is_alphanumeric c = in_range b'A' b'Z' c || (in_range b'a' b'z' c || in_range b'0' b'9' c)

unfoldable pub is_identifier_char : ℕ → Bool
is_identifier_char c = is_alphanumeric c || mem_char c (text "._:/-")
  where
    mem_char : ℕ → Text → Bool
    mem_char c cs = any (λ d. d == c) cs

-- `[A-Za-z0-9][A-Za-z0-9._:/-]{0,63}`
unfoldable pub is_identifier : Text → Bool
is_identifier [] = false
is_identifier (c ∷ cs) =
    is_alphanumeric c && (leb (length cs) 63 && all_chars is_identifier_char cs)

unfoldable pub as_identifier : Value → Option Text
as_identifier (string t) = if is_identifier t then some t else none
as_identifier _ = none

-- the member of an enumeration with a text
unfoldable pub named {ℓ} : {A : Type ℓ} → (A → Text) → List A → Text → Option A
named f [] t = none
named f (x ∷ xs) t = if same t (f x) then some x else named f xs t

abbrev pub operations : List Operation
operations = Operation.agent ∷ Operation.model ∷ Operation.tool ∷ Operation.validation ∷ []

abbrev pub failure_types : List FailureType
failure_types =
    FailureType.agent_error ∷ FailureType.model_error ∷ FailureType.tool_error
    ∷ FailureType.malformed_output ∷ FailureType.validation_failure ∷ FailureType.timeout
    ∷ FailureType.retry_exhausted ∷ FailureType.retry_explosion ∷ FailureType.loop_detected
    ∷ FailureType.fallback_activated ∷ FailureType.task_incomplete ∷ FailureType.unknown ∷ []

unfoldable pub as_operation : Value → Option Operation
as_operation (string t) = named operation_text operations t
as_operation _ = none

unfoldable pub as_failure : Value → Option FailureType
as_failure (string t) = named failure_text failure_types t
as_failure _ = none

unfoldable pub as_outcome : Value → Option Outcome
as_outcome (string t) =
    if same t (text "success")
    then some Outcome.success
    else if same t (text "failure")
    then some Outcome.failure
    else none
as_outcome _ = none

-- the fields of `Event`
abbrev pub fields : List Text
fields =
    text "schema_version"
    ∷ text "event_id"
    ∷ text "timestamp"
    ∷ text "deployment_id"
    ∷ text "agent_id"
    ∷ text "operation"
    ∷ text "outcome"
    ∷ text "failure_type"
    ∷ text "latency_ms"
    ∷ text "input_tokens"
    ∷ text "output_tokens"
    ∷ text "retry_count"
    ∷ (map field_text version_fields ++ text "synthetic" ∷ [])
