-- ===== src/Sdk/Mapping.antt =====
-- What `from_otel_attributes` of sdk/python/src/reliamesh_sdk/events.py puts where.
use reliamesh.Prelude.{
  ◌≡◌, refl, ap, ◌∙◌, true, false, Option, some, Text, text, text_dec, ok, require-ok, raise_if-ok,
  arith,
}
use reliamesh.Detection.Prune.{mem_text}
use reliamesh.Storage.Sqlite.Tables.{same}
use reliamesh.Attestation.Values.{Value, string, Members, get, get_as, as_text}
use reliamesh.Protocol.Fields.{Formats}
use reliamesh.Sdk.Events.{
  joined, event_members, otel_fields, otel_operation, selected, with_latency, shares_key, event,
  from_otel_attributes, validate_event, unsupported_otel_operation, duplicate_fields,
}
use reliamesh.Sdk.Acceptance.{IsFormats}
use reliamesh.Sdk.Prepared.{validate_event-keeps}
use reliamesh.Sdk.Attributes.{
  IsOperation, sources, own_fields, is_only, is_renamed, otel_operation-IsOperation,
  get-selected_none, get-selected, get-joined_other, get-joined_there, only_one, text_there,
  apart_own, get-with_latency, latency_itself, members_none, failure_joined,
}

-- What the event holds of the attributes and the arguments.
pub record IsMapped (attributes : Members) (deployment_id agent_id outcome : Value)
    (failure_type latency_ms : Option Value) (synthetic : Value) (r : Members) : Type 0 where
  pub name : Text
  pub named : get (text "gen_ai.operation.name") attributes ≡ some (string name)
  pub operation : Text
  pub is_operation : IsOperation name operation
  pub has_operation : get (text "operation") r ≡ some (string operation)
  pub deployment : get (text "deployment_id") r ≡ some deployment_id
  pub agent : get (text "agent_id") r ≡ some agent_id
  pub has_outcome : get (text "outcome") r ≡ some outcome
  pub failure : get (text "failure_type") r ≡ failure_type
  pub latency : get (text "latency_ms") r ≡ latency_ms
  pub has_synthetic : get (text "synthetic") r ≡ some synthetic
  pub provider : get (text "provider") r ≡ get (text "gen_ai.provider.name") attributes
  pub model : get (text "model") r ≡ get (text "gen_ai.request.model") attributes
  pub input_tokens : get (text "input_tokens") r ≡ get (text "gen_ai.usage.input_tokens") attributes
  pub output_tokens :
      get (text "output_tokens") r ≡ get (text "gen_ai.usage.output_tokens") attributes
  pub sdk : get (text "sdk") r ≡ get (text "telemetry.sdk.name") attributes
  pub sdk_version : get (text "sdk_version") r ≡ get (text "telemetry.sdk.version") attributes
  pub model_version : get (text "model_version") r ≡ get (text "reliamesh.model.version") attributes
  pub prompt_version :
      get (text "prompt_version") r ≡ get (text "reliamesh.prompt.version") attributes
  pub agent_version : get (text "agent_version") r ≡ get (text "reliamesh.agent.version") attributes
  pub framework : get (text "framework") r ≡ get (text "reliamesh.framework.name") attributes
  pub framework_version :
      get (text "framework_version") r ≡ get (text "reliamesh.framework.version") attributes
  pub tool : get (text "tool") r ≡ get (text "reliamesh.tool.name") attributes
  pub tool_version : get (text "tool_version") r ≡ get (text "reliamesh.tool.version") attributes

module _ (f : Formats) (laws : IsFormats f) (id time : Text) (attributes : Members)
    (deployment agent operation outcome : Value) (failure latency : Option Value)
    (synthetic : Value) (r : Members)
    (valid : validate_event f (
        joined
          (event_members id time deployment agent operation outcome failure synthetic)
          (selected otel_fields attributes (with_latency latency)))
      ≡ ok r) where
  set_field :
      (k : Text) (v : Value)
      → same k (text "event_id") ≡ false
      → same k (text "timestamp") ≡ false
      → get k (event_members id time deployment agent operation outcome failure synthetic) ≡ some v
      → get k r ≡ some v
  set_field k v a b e = validate_event-keeps f laws _ r k valid a b ∙ get-joined_there k v _ _ e

  renamed_field : (k s : Text) → is_renamed k s ≡ true → get k r ≡ get s attributes
  unfolding is_renamed
  renamed_field k s e =
      let not_own : mem_text k own_fields ≡ false = ground (arith, e) in
      let not_latency : same k (text "latency_ms") ≡ false = ground (arith, e) in
      let one : is_only s (sources k otel_fields) ≡ true = ground (arith, e) in
      let (not_id, not_time) = apart_own k not_own in
      validate_event-keeps f laws _ r k valid not_id not_time
      ∙ get-joined_other k _ _
          (members_none id time deployment agent operation outcome synthetic failure k not_own)
      ∙ get-selected k s otel_fields attributes _ (only_one s _ one)
          (get-with_latency k latency not_latency)

  latency_field : get (text "latency_ms") r ≡ latency
  unfolding text_dec mem_text sources
  latency_field =
      validate_event-keeps f laws _ r (text "latency_ms") valid refl refl
      ∙ get-joined_other (text "latency_ms") _ _ (
          members_none id time deployment agent operation outcome synthetic failure
            (text "latency_ms") refl)
      ∙ get-selected_none (text "latency_ms") otel_fields attributes _ refl
      ∙ latency_itself latency

  failure_field : get (text "failure_type") r ≡ failure
  unfolding text_dec sources
  failure_field =
      validate_event-keeps f laws _ r (text "failure_type") valid refl refl
      ∙ failure_joined id time deployment agent operation outcome synthetic failure _ (
          get-selected_none (text "failure_type") otel_fields attributes _ refl
          ∙ get-with_latency (text "failure_type") latency refl)

  -- the record for an operation that is known
  valid-IsMapped :
      (name known_operation : Text)
      → get (text "gen_ai.operation.name") attributes ≡ some (string name)
      → IsOperation name known_operation
      → operation ≡ string known_operation
      → IsMapped attributes deployment agent outcome failure latency synthetic r
  unfolding event_members get text_dec is_renamed mem_text sources
  valid-IsMapped name known_operation there is e = record {
    name = name;
    named = there;
    operation = known_operation;
    is_operation = is;
    has_operation = set_field (text "operation") operation refl refl refl ∙ ap some e;
    deployment = set_field (text "deployment_id") deployment refl refl refl;
    agent = set_field (text "agent_id") agent refl refl refl;
    has_outcome = set_field (text "outcome") outcome refl refl refl;
    failure = failure_field;
    latency = latency_field;
    has_synthetic = set_field (text "synthetic") synthetic refl refl refl;
    provider = renamed_field (text "provider") (text "gen_ai.provider.name") refl;
    model = renamed_field (text "model") (text "gen_ai.request.model") refl;
    input_tokens = renamed_field (text "input_tokens") (text "gen_ai.usage.input_tokens") refl;
    output_tokens = renamed_field (text "output_tokens") (text "gen_ai.usage.output_tokens") refl;
    sdk = renamed_field (text "sdk") (text "telemetry.sdk.name") refl;
    sdk_version = renamed_field (text "sdk_version") (text "telemetry.sdk.version") refl;
    model_version = renamed_field (text "model_version") (text "reliamesh.model.version") refl;
    prompt_version = renamed_field (text "prompt_version") (text "reliamesh.prompt.version") refl;
    agent_version = renamed_field (text "agent_version") (text "reliamesh.agent.version") refl;
    framework = renamed_field (text "framework") (text "reliamesh.framework.name") refl;
    framework_version =
        renamed_field (text "framework_version") (text "reliamesh.framework.version") refl;
    tool = renamed_field (text "tool") (text "reliamesh.tool.name") refl;
    tool_version = renamed_field (text "tool_version") (text "reliamesh.tool.version") refl;
  }

module _ (f : Formats) (laws : IsFormats f) where
  pub from_otel_attributes-IsMapped :
      (event_id timestamp : Text) (attributes : Members) (deployment_id agent_id outcome : Value)
      (failure_type latency_ms : Option Value) (synthetic : Value) (r : Members)
      → from_otel_attributes f event_id timestamp attributes deployment_id agent_id outcome
          failure_type latency_ms synthetic
        ≡ ok r
      → IsMapped attributes deployment_id agent_id outcome failure_type latency_ms synthetic r
  unfolding from_otel_attributes event
  from_otel_attributes-IsMapped id time attributes deployment agent outcome failure latency
        synthetic r e =
      let (name, there, e1) =
        require-ok unsupported_otel_operation
          (get_as as_text (text "gen_ai.operation.name") attributes) e in
      let (operation, is, e2) = require-ok unsupported_otel_operation (otel_operation name) e1 in
      let members =
        event_members id time deployment agent (string operation) outcome failure synthetic in
      let measured = selected otel_fields attributes (with_latency latency) in
      let (_, valid) = raise_if-ok (shares_key measured members) duplicate_fields e2 in
      valid-IsMapped f laws id time attributes deployment agent (string operation) outcome failure
        latency synthetic r valid name operation
        (text_there (text "gen_ai.operation.name") name attributes there)
        (otel_operation-IsOperation name operation is) refl
