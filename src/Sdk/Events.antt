-- ===== src/Sdk/Events.antt =====
-- `validate_event`, `event` and `from_otel_attributes` of sdk/python/src/reliamesh_sdk/events.py.
use reliamesh.Prelude.{
  ℕ, Bool, true, false, Option, none, some, List, [], ◌∷◌, Text, text, if◌then◌else◌, not, ◌&&◌,
  ◌||◌, Result, ok, ◌>>=◌, ◌>>◌, raise_if, require, any,
}
use reliamesh.Storage.Sqlite.Tables.{same}
use reliamesh.Attestation.Values.{
  Value, null, string, Members, member, close, get, has, get_as, has_text, as_text,
}
use reliamesh.Attestation.Writes.{keys_within}
use reliamesh.Protocol.Fields.{Formats}
use reliamesh.Sdk.Fields.{
  required, allowed, identifiers, counters, supported_operations, supported_failures, is_label,
  is_one_of, read_outcome, is_counter, is_boolean, is_latency_value,
}

-- the messages of the ValueErrors
pub data Error : Type 0 where
  unsupported_fields unsupported_version event_id_must_be_uuid timestamp_must_have_timezone
        unsafe_identifier unsupported_operation unsupported_outcome failure_type_required
        failure_type_forbidden duplicate_fields counter_out_of_bounds latency_out_of_bounds
        synthetic_must_be_boolean unsupported_otel_operation :
      Error

-- `d[k] = v`
unfoldable pub put : Text → Value → Members → Members
put k v close = member k v close
put k v (member j w d) = if same k j then member j v d else member j w (put k v d)

unfoldable pub has_all : List Text → Members → Bool
has_all [] d = true
has_all (k ∷ ks) d = has k d && has_all ks d

-- a member that is absent, or passes a test
unfoldable pub absent_or : (Value → Bool) → Option Value → Bool
absent_or p none = true
absent_or p (some v) = p v

unfoldable pub are_identifiers : List Text → Members → Bool
are_identifiers [] d = true
are_identifiers (k ∷ ks) d = absent_or is_label (get k d) && are_identifiers ks d

-- `result.get("failure_type") is None`
unfoldable pub is_none : Option Value → Bool
is_none none = true
is_none (some null) = true
is_none (some _) = false

-- whether the outcome is a failure decides what `failure_type` may be
unfoldable pub check_failure : Bool → Members → Result Error (Unit {0})
check_failure true d =
    raise_if (not (is_one_of supported_failures (get (text "failure_type") d)))
      failure_type_required
check_failure false d =
    raise_if (not (is_none (get (text "failure_type") d))) failure_type_forbidden

unfoldable pub are_counters : List (Text × ℕ) → Members → Bool
are_counters [] d = true
are_counters (e ∷ rest) d = absent_or (is_counter e.1) (get e.0 d) && are_counters rest d

-- `{**d, **more}`, of members that have no key in common
unfoldable pub joined : Members → Members → Members
joined close more = more
joined (member k v d) more = member k v (joined d more)

unfoldable pub shares_key : Members → Members → Bool
shares_key close d = false
shares_key (member k v more) d = has k d || shares_key more d

unfoldable pub with_failure : Option Value → Members
with_failure none = close
with_failure (some v) = member (text "failure_type") v close

-- the members that `event` begins with
unfoldable pub event_members :
    Text → Text → Value → Value → Value → Value → Option Value → Value → Members
event_members event_id timestamp deployment_id agent_id operation outcome failure_type synthetic =
    member (text "schema_version") (string (text "1.0")) (
      member (text "event_id") (string event_id) (
        member (text "timestamp") (string timestamp) (
          member (text "deployment_id") deployment_id (
            member (text "agent_id") agent_id (
              member (text "operation") operation (
                member (text "outcome") outcome
                  (member (text "synthetic") synthetic (with_failure failure_type))))))))

-- `_OTEL_FIELDS`
abbrev pub otel_fields : List (Text × Text)
otel_fields =
    (text "gen_ai.provider.name", text "provider")
    ∷ (text "gen_ai.request.model", text "model")
    ∷ (text "gen_ai.usage.input_tokens", text "input_tokens")
    ∷ (text "gen_ai.usage.output_tokens", text "output_tokens")
    ∷ (text "telemetry.sdk.name", text "sdk")
    ∷ (text "telemetry.sdk.version", text "sdk_version")
    ∷ (text "reliamesh.model.version", text "model_version")
    ∷ (text "reliamesh.prompt.version", text "prompt_version")
    ∷ (text "reliamesh.agent.version", text "agent_version")
    ∷ (text "reliamesh.framework.name", text "framework")
    ∷ (text "reliamesh.framework.version", text "framework_version")
    ∷ (text "reliamesh.tool.name", text "tool")
    ∷ (text "reliamesh.tool.version", text "tool_version")
    ∷ []

-- `_OTEL_OPERATIONS`
unfoldable pub otel_operation : Text → Option Text
otel_operation t =
    if any (same t)
      (text "chat" ∷ text "text_completion" ∷ text "generate_content" ∷ text "embeddings" ∷ [])
    then some (text "model")
    else if same t (text "invoke_agent")
    then some (text "agent")
    else if same t (text "execute_tool")
    then some (text "tool")
    else none

unfoldable pub selected : List (Text × Text) → Members → Members → Members
selected [] attributes rest = rest
selected (e ∷ names) attributes rest = elim (get e.0 attributes) [
  | none ↦ selected names attributes rest
  | some v ↦ member e.1 v (selected names attributes rest)
]

-- `latency_ms`, where it is given
unfoldable pub with_latency : Option Value → Members
with_latency none = close
with_latency (some v) = member (text "latency_ms") v close

module _ (f : Formats) where
  -- the checks after the two members that are rewritten
  unfoldable pub check_members : Members → Result Error (Unit {0})
  check_members d = do
    raise_if (not (are_identifiers identifiers d)) unsafe_identifier
    raise_if (not (is_one_of supported_operations (get (text "operation") d))) unsupported_operation
    is_failed ← require unsupported_outcome (read_outcome (get (text "outcome") d))
    check_failure is_failed d
    raise_if (not (are_counters counters d)) counter_out_of_bounds
    raise_if (not (absent_or (is_latency_value f) (get (text "latency_ms") d)))
        latency_out_of_bounds
    raise_if (not (absent_or is_boolean (get (text "synthetic") d))) synthetic_must_be_boolean

  unfoldable pub validate_event : Members → Result Error Members
  validate_event d = do
    raise_if (not (keys_within allowed d) || not (has_all required d)) unsupported_fields
    raise_if (not (has_text (text "schema_version") (text "1.0") d)) unsupported_version
    given_id ← require event_id_must_be_uuid (get_as as_text (text "event_id") d)
    event_id ← require event_id_must_be_uuid (f.canonical_uuid given_id)
    given_time ← require timestamp_must_have_timezone (get_as as_text (text "timestamp") d)
    timestamp ← require timestamp_must_have_timezone (f.from_iso given_time)
    let result =
        put (text "timestamp") (string (f.to_iso timestamp))
          (put (text "event_id") (string event_id) d)
    check_members result
    ok result

  -- `event`, with the identifier and the time that it falls back on already in place
  unfoldable pub event :
      Text
      → Text
      → Value
      → Value
      → Value
      → Value
      → Option Value
      → Value
      → Members
      → Result Error Members
  event event_id timestamp deployment_id agent_id operation outcome failure_type synthetic
        measurements =
      let result =
        event_members event_id timestamp deployment_id agent_id operation outcome failure_type
          synthetic in
      raise_if (shares_key measurements result) duplicate_fields
      >> validate_event (joined result measurements)

  unfoldable pub from_otel_attributes :
      Text
      → Text
      → Members
      → Value
      → Value
      → Value
      → Option Value
      → Option Value
      → Value
      → Result Error Members
  from_otel_attributes event_id timestamp attributes deployment_id agent_id outcome failure_type
        latency_ms synthetic =
      do
        name ←
            require unsupported_otel_operation
              (get_as as_text (text "gen_ai.operation.name") attributes)
        operation ← require unsupported_otel_operation (otel_operation name)
        event event_id timestamp deployment_id agent_id (string operation) outcome failure_type
            synthetic (selected otel_fields attributes (with_latency latency_ms))
