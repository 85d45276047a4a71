-- ===== src/Tests/Events.antt =====
-- An event of the SDK, validated by it and by the server.
use reliamesh.Prelude.{
  ℕ, ◌≡◌, refl, true, false, none, some, Text, text, text_dec, in_range, length, if◌then◌else◌, ok,
  arith, ap, ◌∙◌,
}
use reliamesh.Storage.Sqlite.Tables.{same}
use reliamesh.Attestation.Values.{
  integer, string, boolean, Members, member, close, get, has, get_as, as_text, has_text, is_text,
}
use reliamesh.Attestation.Writes.{keys_within}
use reliamesh.Detection.Prune.{mem_text}
use reliamesh.Storage.Common.{is_hex}
use reliamesh.Protocol.Event.{Event}
use reliamesh.Protocol.Fields.{Formats}
use reliamesh.Protocol.Validation.{is_uuid_from, replace_z, parse_event}
use reliamesh.Sdk.Events.{
  validate_event, from_otel_attributes, event, event_members, with_failure, with_latency, selected,
  otel_operation, shares_key, joined, has_all, put, check_members, are_identifiers, are_counters,
  absent_or, check_failure, is_none,
}
use reliamesh.Sdk.Fields.{
  matches_identifier, starts_identifier, continues_identifier, is_label, is_one_of, read_outcome,
  is_counter, is_latency_value, is_boolean,
}
use reliamesh.Sdk.Acceptance.{IsFormats}
use reliamesh.Sdk.Mapping.{IsMapped}
use reliamesh.Sdk.Agreement.{
  parse_event-validate_event, parse_event-from_otel_attributes, validate_event_idempotent,
}
use reliamesh.Tests.Toy.{toy, morning}

abbrev id : Text
id = text "01234567-89ab-cdef-0123-456789abcdef"

abbrev stamp : Text
stamp = text "2026-01-01T00:00:00+00:00"

-- formats that know one identifier and one time
abbrev formats : Formats
formats = record {
  canonical_uuid = λ t. if same t id then some id else none;
  from_iso = λ t. if same t stamp then some morning else none;
  to_iso = λ t. stamp;
  at_least = λ n t. true;
  at_most = λ n t. true;
  is_finite = λ t. true;
}

only_id : (t c : Text) → (if same t id then some id else none) ≡ some c → c ≡ id
only_id t c e = ground (arith, e)

id_again : (if same id id then some id else none) ≡ some id
unfolding text_dec
id_again = refl

id_pattern : is_uuid_from 0 id ≡ true
unfolding is_uuid_from is_hex in_range
id_pattern = refl

only_time :
    (s : Text) (t : ℕ) → (if same s stamp then some morning else none) ≡ some t → morning ≡ t
only_time s t e = ground (arith, e)

stamp_again : (if same stamp stamp then some morning else none) ≡ some morning
unfolding text_dec
stamp_again = refl

stamp_plain : replace_z stamp ≡ stamp
unfolding replace_z
stamp_plain = refl

laws : IsFormats formats
laws = record {
  canonical_again = λ t c e. rw (only_id t c e) id_again;
  canonical_length = λ t c e. ap length (only_id t c e);
  canonical_pattern = λ t c e. rw (only_id t c e) id_pattern;
  read_back = λ s t e. stamp_again ∙ ap some (only_time s t e);
  short = λ s t e. omega arith;
  has_t = λ s t e. refl;
  no_z = λ s t e. stamp_plain;
}

abbrev call : Members
call = member (text "schema_version") (string (text "1.0")) (
    member (text "event_id") (string id) (
      member (text "timestamp") (string stamp) (
        member (text "deployment_id") (string (text "d1")) (
          member (text "agent_id") (string (text "a.b:c/d")) (
            member (text "operation") (string (text "tool")) (
              member (text "outcome") (string (text "failure")) (
                member (text "failure_type") (string (text "timeout")) (
                  member (text "latency_ms") (integer 1200)
                    (member (text "tool") (string (text "search")) close)))))))))

valid : validate_event formats call ≡ ok call
unfolding validate_event keys_within mem_text text_dec has_all has get get_as as_text put has_text
    is_text check_members are_identifiers are_counters absent_or is_label matches_identifier
    starts_identifier continues_identifier in_range is_one_of read_outcome check_failure is_none
    is_counter is_latency_value is_boolean
valid = refl

parse_event-validate_event_example :
    (e : Event toy) × (parse_event toy formats (λ t. 0) call ≡ ok e)
    × (get (text "event_id") call ≡ some (string e.event_id))
    × (get (text "timestamp") call ≡ some (string stamp))
parse_event-validate_event_example =
    parse_event-validate_event toy formats laws (λ t. 0) call call valid

validate_event_idempotent_example : validate_event formats call ≡ ok call
validate_event_idempotent_example = validate_event_idempotent formats laws call call valid

abbrev attributes : Members
attributes = member (text "gen_ai.operation.name") (string (text "chat")) (
    member (text "gen_ai.usage.input_tokens") (integer 12)
      (member (text "gen_ai.prompt") (string (text "secret")) close))

abbrev exported : Members
exported = member (text "schema_version") (string (text "1.0")) (
    member (text "event_id") (string id) (
      member (text "timestamp") (string stamp) (
        member (text "deployment_id") (string (text "d1")) (
          member (text "agent_id") (string (text "a1")) (
            member (text "operation") (string (text "model")) (
              member (text "outcome") (string (text "success")) (
                member (text "synthetic") (boolean false)
                  (member (text "input_tokens") (integer 12) close))))))))

mapped :
    from_otel_attributes formats id stamp attributes
      (string (text "d1"))
      (string (text "a1"))
      (string (text "success"))
      none
      none
      (boolean false)
    ≡ ok exported
unfolding from_otel_attributes event event_members with_failure with_latency selected otel_operation
    shares_key joined validate_event keys_within mem_text text_dec has_all has get get_as as_text
    put has_text is_text check_members are_identifiers are_counters absent_or is_label
    matches_identifier starts_identifier continues_identifier in_range is_one_of read_outcome
    check_failure is_none is_counter is_latency_value is_boolean
mapped = refl

parse_event-from_otel_attributes_example :
    (e : Event toy) × (parse_event toy formats (λ t. 0) exported ≡ ok e)
    × (get (text "event_id") exported ≡ some (string e.event_id))
    × (get (text "timestamp") exported ≡ some (string stamp))
    × IsMapped attributes
        (string (text "d1"))
        (string (text "a1"))
        (string (text "success"))
        none
        none
        (boolean false)
        exported
parse_event-from_otel_attributes_example =
    parse_event-from_otel_attributes toy formats laws (λ t. 0) id stamp attributes
      (string (text "d1")) (string (text "a1")) (string (text "success")) none none (boolean false)
      exported mapped
