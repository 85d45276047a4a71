-- ===== src/Sdk/Agreement.antt =====
-- What the SDK validates, the server accepts.
use reliamesh.Prelude.{
  ◌≡◌, refl, true, Option, some, Text, text, ok, require-ok, raise_if-ok, arith,
}
use reliamesh.Host.{Host, Instant}
use reliamesh.Attestation.Values.{Value, string, Members, member, close, get, get_as, as_text}
use reliamesh.Protocol.Event.{Event, version_fields}
use reliamesh.Prelude.{map}
use reliamesh.Protocol.Event.{field_text}
use reliamesh.Protocol.Fields.{Formats}
use reliamesh.Sdk.Correspondence.{keys_within-allowed, outcome_of}
use reliamesh.Protocol.Validation.{label_of, valid_uuid, aware_timestamp, parse_event}
use reliamesh.Sdk.Events.{
  put, validate_event, duplicate_fields, unsupported_otel_operation, otel_operation, otel_fields,
  selected, with_latency, shares_key, joined, event_members, event, from_otel_attributes,
}
use reliamesh.Sdk.Acceptance.{
  IsFormats, are_labels-identifiers, identifier_there, counter_there, boolean_there, failure_there,
  latency_there,
}
use reliamesh.Sdk.Mapping.{IsMapped, from_otel_attributes-IsMapped}
use reliamesh.Sdk.Prepared.{
  IsPrepared, validate_event-IsPrepared, check_members-IsChecked, text_there, same_refl,
  right_version, two_there, split_identifiers,
}

module _ (h : Host) (f : Formats) (laws : IsFormats f) (float_of : Text → h.Float) where
  valid_id : (d : Members) (p : IsPrepared f d) → valid_uuid h f float_of p.event_id ≡ true
  unfolding valid_uuid
  valid_id d p = ground (arith, p.uuid_length, p.uuid_pattern, p.is_uuid, same_refl p.event_id)

  valid_time :
      (t : Instant)
      → f.from_iso (f.to_iso t) ≡ some t
      → aware_timestamp h f float_of (f.to_iso t) ≡ some t
  unfolding aware_timestamp
  valid_time t e = ground (
    arith,
    e,
    laws.short (f.to_iso t) t e,
    laws.has_t (f.to_iso t) t e,
    laws.no_z (f.to_iso t) t e,
  )

  parse_event-IsPrepared :
      (d : Members)
      → IsPrepared f d
      → (e : Event h) × (parse_event h f float_of d ≡ ok e)
        × (get (text "event_id") d ≡ some (string e.event_id))
        × (get (text "timestamp") d ≡ some (string (f.to_iso e.timestamp)))
  unfolding parse_event field_text
  parse_event-IsPrepared d p =
      let c = check_members-IsChecked f d p.members in
      let (has_deployment, has_agent) = two_there d p.there in
      let (i1, i2, i3) =
        split_identifiers (text "deployment_id") (text "agent_id") (map field_text version_fields) d
          c.ids in
      let (deployment, e1) = identifier_there (text "deployment_id") d has_deployment i1 in
      let (agent, e2) = identifier_there (text "agent_id") d has_agent i2 in
      let (failure, e3, classified) = failure_there c.is_failed d c.failure in
      let (latency, e4) = latency_there h f float_of (get (text "latency_ms") d) c.latency in
      let (input, e5) = counter_there 1_000_000_000 (get (text "input_tokens") d) c.input in
      let (output, e6) = counter_there 1_000_000_000 (get (text "output_tokens") d) c.output in
      let (retries, e7) = counter_there 1_000_000 (get (text "retry_count") d) c.retries in
      let (synthetic, e8) = boolean_there (get (text "synthetic") d) c.synthetic in
      let e9 = are_labels-identifiers version_fields d i3 in
      let id : get_as as_text (text "event_id") d ≡ some p.event_id =
        text_there (text "event_id") p.event_id d p.has_id in
      let time : get_as as_text (text "timestamp") d ≡ some (f.to_iso p.timestamp) =
        text_there (text "timestamp") (f.to_iso p.timestamp) d p.has_time in
      (
        record {
          event_id = p.event_id;
          timestamp = p.timestamp;
          deployment_id = deployment;
          agent_id = agent;
          operation = c.operation;
          outcome = outcome_of c.is_failed;
          failure_type = failure;
          latency_ms = latency;
          input_tokens = input;
          output_tokens = output;
          retry_count = retries;
          label = label_of d;
          synthetic = synthetic;
        },
        rw
            (
              keys_within-allowed d p.keys,
              right_version d p.version,
              id,
              valid_id d p,
              time,
              valid_time p.timestamp p.is_time,
              e1,
              e2,
              c.has_operation,
              c.has_outcome,
              e3,
              e4,
              e5,
              e6,
              e7,
              e9,
              e8,
              classified,
            )
            refl,
        p.has_id,
        p.has_time,
      )

  -- Where the formats are as documented, what `validate_event` returns is an event that the server's
  -- model accepts, with the identifier and the time that stand in it.
  pub parse_event-validate_event :
      (d r : Members)
      → validate_event f d ≡ ok r
      → (e : Event h) × (parse_event h f float_of r ≡ ok e)
        × (get (text "event_id") r ≡ some (string e.event_id))
        × (get (text "timestamp") r ≡ some (string (f.to_iso e.timestamp)))
  parse_event-validate_event d r e =
      parse_event-IsPrepared r (validate_event-IsPrepared f laws d r e)

  -- Where the formats are as documented, what `from_otel_attributes` returns is an event that the
  -- server's model accepts too, with the identifier and the time that stand in it; its operation is the
  -- one that the attributes name, each of thirteen fields is just what its attribute is, and the other
  -- members are the arguments.
  pub parse_event-from_otel_attributes :
      (event_id timestamp : Text) (attributes : Members) (deployment_id agent_id outcome : Value)
      (failure_type latency_ms : Option Value) (synthetic : Value) (r : Members)
      → from_otel_attributes f event_id timestamp attributes deployment_id agent_id outcome
          failure_type latency_ms synthetic
        ≡ ok r
      → (e : Event h) × (parse_event h f float_of r ≡ ok e)
        × (get (text "event_id") r ≡ some (string e.event_id))
        × (get (text "timestamp") r ≡ some (string (f.to_iso e.timestamp)))
        × IsMapped attributes deployment_id agent_id outcome failure_type latency_ms synthetic r
  unfolding from_otel_attributes event
  parse_event-from_otel_attributes id time attributes deployment agent outcome failure latency
        synthetic r e =
      let (name, _, e1) =
        require-ok unsupported_otel_operation
          (get_as as_text (text "gen_ai.operation.name") attributes) e in
      let (operation, _, e2) = require-ok unsupported_otel_operation (otel_operation name) e1 in
      let members =
        event_members id time deployment agent (string operation) outcome failure synthetic in
      let measured = selected otel_fields attributes (with_latency latency) in
      let (_, e3) = raise_if-ok (shares_key measured members) duplicate_fields e2 in
      let (event, accepted, has_id, has_time) =
        parse_event-validate_event (joined members measured) r e3 in
      (
        event,
        accepted,
        has_id,
        has_time,
        from_otel_attributes-IsMapped f laws id time attributes deployment agent outcome failure
            latency synthetic r e,
      )

put_there : (k : Text) (v : Value) (d : Members) → get k d ≡ some v → put k v d ≡ d
unfolding get put
put_there k v close e = cc
put_there k v (member j w d) e = ground (arith, e, put_there k v d)

module _ (f : Formats) (laws : IsFormats f) where
  -- Where the formats are as documented, what `validate_event` returns it accepts again, and returns
  -- as it is.
  pub validate_event_idempotent :
      (d r : Members) → validate_event f d ≡ ok r → validate_event f r ≡ ok r
  unfolding validate_event
  validate_event_idempotent d r e =
      let p = validate_event-IsPrepared f laws d r e in
      let id = text_there (text "event_id") p.event_id r p.has_id in
      let time = text_there (text "timestamp") (f.to_iso p.timestamp) r p.has_time in
      rw
        (
          p.keys,
          p.there,
          p.version,
          id,
          p.is_uuid,
          time,
          p.is_time,
          put_there (text "event_id") (string p.event_id) r p.has_id,
          put_there (text "timestamp") (string (f.to_iso p.timestamp)) r p.has_time,
          p.members,
        )
        refl
