-- ===== src/Protocol/Event.antt =====
-- `Event` of src/reliamesh/protocol.py, after its validators: the fields that pydantic checks by
-- pattern and range, and what is derived from them.
use reliamesh.Prelude.{
  ℕ, Bool, true, false, Option, none, some, List, [], ◌∷◌, ◌++◌, map, Text, text, Result, ok,
  raise_if, ◌>>◌, not,
}
use reliamesh.Prelude.Dict.{Dict}
use reliamesh.Host.{Host, Instant}
use reliamesh.Protocol.Json.{Scalar, canonical_hash}

pub data Operation : Type 0 where
  agent model tool validation : Operation

pub data Outcome : Type 0 where
  success failure : Outcome

pub data FailureType : Type 0 where
  agent_error model_error tool_error malformed_output validation_failure timeout retry_exhausted
        retry_explosion loop_detected fallback_activated task_incomplete unknown :
      FailureType

-- the names in `VERSION_FIELDS`
pub data VersionField : Type 0 where
  provider model model_version framework framework_version sdk sdk_version tool tool_version
        prompt_version agent_version :
      VersionField

pub record Event (h : Host) : Type 0 where
  pub event_id : Text
  pub timestamp : Instant
  pub deployment_id : Text
  pub agent_id : Text
  pub operation : Operation
  pub outcome : Outcome
  pub failure_type : Option FailureType
  pub latency_ms : Option h.Float
  pub input_tokens : Option ℕ
  pub output_tokens : Option ℕ
  pub retry_count : Option ℕ
  -- the eleven optional labels, as `getattr(event, key)` reads them
  pub label : VersionField → Option Text
  pub synthetic : Bool

unfoldable pub operation_text : Operation → Text
operation_text Operation.agent = text "agent"
operation_text Operation.model = text "model"
operation_text Operation.tool = text "tool"
operation_text Operation.validation = text "validation"

unfoldable pub failure_text : FailureType → Text
failure_text FailureType.agent_error = text "agent_error"
failure_text FailureType.model_error = text "model_error"
failure_text FailureType.tool_error = text "tool_error"
failure_text FailureType.malformed_output = text "malformed_output"
failure_text FailureType.validation_failure = text "validation_failure"
failure_text FailureType.timeout = text "timeout"
failure_text FailureType.retry_exhausted = text "retry_exhausted"
failure_text FailureType.retry_explosion = text "retry_explosion"
failure_text FailureType.loop_detected = text "loop_detected"
failure_text FailureType.fallback_activated = text "fallback_activated"
failure_text FailureType.task_incomplete = text "task_incomplete"
failure_text FailureType.unknown = text "unknown"

unfoldable pub field_text : VersionField → Text
field_text VersionField.provider = text "provider"
field_text VersionField.model = text "model"
field_text VersionField.model_version = text "model_version"
field_text VersionField.framework = text "framework"
field_text VersionField.framework_version = text "framework_version"
field_text VersionField.sdk = text "sdk"
field_text VersionField.sdk_version = text "sdk_version"
field_text VersionField.tool = text "tool"
field_text VersionField.tool_version = text "tool_version"
field_text VersionField.prompt_version = text "prompt_version"
field_text VersionField.agent_version = text "agent_version"

-- `VERSION_FIELDS[:-2]`
abbrev pub public_component_fields : List VersionField
public_component_fields =
    VersionField.provider ∷ VersionField.model ∷ VersionField.model_version ∷ VersionField.framework
    ∷ VersionField.framework_version ∷ VersionField.sdk ∷ VersionField.sdk_version
    ∷ VersionField.tool ∷ VersionField.tool_version ∷ []

abbrev pub version_fields : List VersionField
version_fields =
    public_component_fields ++ VersionField.prompt_version ∷ VersionField.agent_version ∷ []

-- `{key: value for key in fields if (value := getattr(event, key)) is not None}`
unfoldable pub labels : List VersionField → (VersionField → Option Text) → Dict Text
unfolding field_text
labels [] label = []
labels (key ∷ keys) label = elim (label key) [
  | none ↦ labels keys label
  | some value ↦ (field_text key, value) ∷ labels keys label
]

unfoldable pub string_members : Dict Text → Dict Scalar
string_members = map (λ e. (e.0, Scalar.string e.1))

-- the rejection by the model validator `classified_outcome`
pub data Invalid : Type 0 where
  failure_type_required : Invalid

unfoldable pub is_classified : Outcome → Option FailureType → Bool
is_classified Outcome.failure (some _) = true
is_classified Outcome.failure none = false
is_classified Outcome.success (some _) = false
is_classified Outcome.success none = true

module _ (h : Host) where
  unfoldable pub classified_outcome : Event h → Result Invalid (Event h)
  unfolding is_classified
  classified_outcome event =
      raise_if (not (is_classified event.outcome event.failure_type)) failure_type_required
      >> ok event

  unfoldable pub version_metadata : Event h → Dict Text
  unfolding labels
  version_metadata event = labels version_fields event.label

  optional {ℓ} : {A : Type ℓ} → (A → Scalar) → Option A → Scalar
  optional f none = Scalar.null
  optional f (some a) = f a

  -- `event.model_dump(mode="json")`: every field, `null` where it is `None`
  unfoldable pub model_dump : Event h → Dict Scalar
  unfolding optional operation_text failure_text field_text
  model_dump event =
      (text "schema_version", Scalar.string (text "1.0"))
        ∷ (text "event_id", Scalar.string event.event_id)
        ∷ (text "timestamp", Scalar.string (h.isoformat event.timestamp))
        ∷ (text "deployment_id", Scalar.string event.deployment_id)
        ∷ (text "agent_id", Scalar.string event.agent_id)
        ∷ (text "operation", Scalar.string (operation_text event.operation))
        ∷ (
          text "outcome",
          elim event.outcome [
            | Outcome.success ↦ Scalar.string (text "success")
            | Outcome.failure ↦ Scalar.string (text "failure")
          ],
        )
        ∷ (text "failure_type", optional (λ f. Scalar.string (failure_text f)) event.failure_type)
        ∷ (text "latency_ms", optional (λ x. Scalar.number (h.repr x)) event.latency_ms)
        ∷ (text "input_tokens", optional Scalar.integer event.input_tokens)
        ∷ (text "output_tokens", optional Scalar.integer event.output_tokens)
        ∷ (text "retry_count", optional Scalar.integer event.retry_count)
        ∷ map (λ key. (field_text key, optional Scalar.string (event.label key))) version_fields
      ++ (text "synthetic", Scalar.boolean event.synthetic) ∷ []

  -- the members that both fingerprints of a failure hash
  unfoldable pub fingerprint_members : Operation → Option FailureType → Dict Text → Dict Scalar
  unfolding optional operation_text failure_text string_members
  fingerprint_members operation failure_type components =
      (text "fingerprint_version", Scalar.string (text "1.0"))
      ∷ (text "operation", Scalar.string (operation_text operation))
      ∷ (text "failure_type", optional (λ f. Scalar.string (failure_text f)) failure_type)
      ∷ string_members components

  -- An identifier is never empty, so `if getattr(event, key)` asks only whether it is there.
  unfoldable pub failure_fingerprint : Event h → Option Text
  unfolding canonical_hash fingerprint_members labels
  failure_fingerprint event = elim event.outcome [
    | Outcome.success ↦ none
    | Outcome.failure ↦ some (
        canonical_hash h (
          fingerprint_members event.operation event.failure_type
            (labels public_component_fields event.label)))
  ]
