-- ===== src/Sdk/Fields.antt =====
-- The constants of sdk/python/src/reliamesh_sdk/events.py, and its tests of one member.
use reliamesh.Prelude.{
  ℕ, Bool, true, false, Option, none, some, List, [], ◌∷◌, ◌++◌, Text, text, length, in_range,
  all_chars, leb, ◌==◌, if◌then◌else◌, ◌&&◌, ◌||◌,
}
use reliamesh.Detection.Prune.{mem_text}
use reliamesh.Storage.Sqlite.Tables.{same}
use reliamesh.Attestation.Values.{Value, boolean, integer, number, string}
use reliamesh.Protocol.Fields.{Formats}

-- `IDENTIFIER.fullmatch`
unfoldable pub starts_identifier : ℕ → Bool
starts_identifier c = in_range b'A' b'Z' c || (in_range b'a' b'z' c || in_range b'0' b'9' c)

unfoldable pub continues_identifier : ℕ → Bool
continues_identifier c =
    starts_identifier c || (c == b'.' || (c == b'_' || (c == b':' || (c == b'/' || (c == b'-')))))

unfoldable pub matches_identifier : Text → Bool
matches_identifier [] = false
matches_identifier (c ∷ cs) =
    starts_identifier c && (leb (length cs) 63 && all_chars continues_identifier cs)

-- `OPERATIONS`
abbrev pub supported_operations : List Text
supported_operations = text "agent" ∷ text "model" ∷ text "tool" ∷ text "validation" ∷ []

-- `FAILURE_TYPES`
abbrev pub supported_failures : List Text
supported_failures =
    text "agent_error"
    ∷ text "model_error"
    ∷ text "tool_error"
    ∷ text "malformed_output"
    ∷ text "validation_failure"
    ∷ text "timeout"
    ∷ text "retry_exhausted"
    ∷ text "retry_explosion"
    ∷ text "loop_detected"
    ∷ text "fallback_activated"
    ∷ text "task_incomplete"
    ∷ text "unknown"
    ∷ []

-- `IDENTIFIERS`
abbrev pub identifiers : List Text
identifiers =
    text "deployment_id"
    ∷ text "agent_id"
    ∷ text "provider"
    ∷ text "model"
    ∷ text "model_version"
    ∷ text "framework"
    ∷ text "framework_version"
    ∷ text "sdk"
    ∷ text "sdk_version"
    ∷ text "tool"
    ∷ text "tool_version"
    ∷ text "prompt_version"
    ∷ text "agent_version"
    ∷ []

-- `COUNTERS`
abbrev pub counters : List (Text × ℕ)
counters =
    (text "input_tokens", 1_000_000_000)
    ∷ (text "output_tokens", 1_000_000_000)
    ∷ (text "retry_count", 1_000_000)
    ∷ []

-- `REQUIRED`
abbrev pub required : List Text
required =
    text "schema_version"
    ∷ text "event_id"
    ∷ text "timestamp"
    ∷ text "deployment_id"
    ∷ text "agent_id"
    ∷ text "operation"
    ∷ text "outcome"
    ∷ []

-- `FIELDS`
abbrev pub allowed : List Text
allowed =
    required
    ++ (identifiers
        ++ (text "input_tokens"
            ∷ text "output_tokens"
            ∷ text "retry_count"
            ∷ text "failure_type"
            ∷ text "latency_ms"
            ∷ text "synthetic"
            ∷ []))

unfoldable pub is_label : Value → Bool
is_label (string t) = matches_identifier t
is_label _ = false

-- `isinstance(value, str) and value in texts`, of a member that may be missing
unfoldable pub is_one_of : List Text → Option Value → Bool
is_one_of texts (some (string t)) = mem_text t texts
is_one_of texts _ = false

-- whether the outcome is a failure, if it is "success" or "failure"
unfoldable pub read_outcome : Option Value → Option Bool
read_outcome (some (string t)) =
    if same t (text "success")
    then some false
    else if same t (text "failure")
    then some true
    else none
read_outcome _ = none

unfoldable pub is_counter : ℕ → Value → Bool
is_counter maximum (integer n) = leb n maximum
is_counter maximum _ = false

unfoldable pub is_boolean : Value → Bool
is_boolean (boolean b) = true
is_boolean _ = false

-- `type(latency) in (int, float) and 0 <= latency <= 86_400_000 and math.isfinite(latency)`
unfoldable pub is_latency_value : Formats → Value → Bool
is_latency_value f (integer n) = leb n 86_400_000
is_latency_value f (number t) = f.at_least 0 t && (f.at_most 86_400_000 t && f.is_finite t)
is_latency_value f _ = false
