-- ===== src/Detection/Process.antt =====
-- `_evaluate` and `process_events` of src/reliamesh/detection.py.
use reliamesh.Prelude.{
  ℕ, ◌+◌, Bool, true, false, Option, none, some, List, [], ◌∷◌, ◌++◌, Text, text, text_dec, ltb,
  leb, ◌==◌, if◌then◌else◌, length, find?, last_n, ◌&&◌, not, ite, Result, ok, err, ◌>>=◌, ◌>>◌,
  raise_if,
}
use reliamesh.Prelude.Dict.{Dict, lookup, insert, contains}
use reliamesh.Host.{Host, Instant}
use reliamesh.Protocol.Json.{Scalar, canonical_hash}
use reliamesh.Protocol.Event.{
  Event, Outcome, operation_text, string_members, model_dump, version_metadata,
}
use reliamesh.Detection.State.{
  Sample, Dimensions, Stream, Evidence, Incident, Status, Resolution, State, Counts, Error, window,
  max_streams, max_versions, max_incidents, retention, future, event_expired, event_in_future,
  event_id_conflict, stale_replay, stream_limit_exceeded, late_event, version_limit_exceeded,
  stop_iteration,
}
use reliamesh.Detection.Stats.{stats}
use reliamesh.Detection.Signals.{signals, recovered}
use reliamesh.Detection.Prune.{has_id, update_first, trim_versions}

abbrev pub is_empty {ℓ} : {A : Type ℓ} → List A → Bool
is_empty [] = true
is_empty (x ∷ xs) = false

abbrev pub is_none {ℓ} : {A : Type ℓ} → Option A → Bool
is_none none = true
is_none (some a) = false

abbrev pub is_opened : Status → Bool
is_opened Status.opened = true
is_opened _ = false

-- the removal of the first element that passes the test, if there is one
unfoldable pub remove_first {ℓ} : {A : Type ℓ} → (A → Bool) → List A → List A
remove_first p [] = []
remove_first p (x ∷ xs) = if p x then xs else x ∷ remove_first p xs

-- `d.update(e)`
unfoldable pub update_dict {ℓ} : {V : Type ℓ} → Dict V → Dict V → Dict V
update_dict d [] = d
update_dict d (e ∷ es) = update_dict (insert e.0 e.1 d) es

module _ (h : Host) where
  -- the history, with room for one more incident if a closed one can go
  unfoldable pub make_room : List (Incident h) → List (Incident h)
  make_room incidents =
      if leb max_incidents (length incidents)
      then remove_first (λ (item : Incident h). not (is_opened item.status)) incidents
      else incidents

  unfoldable pub incident_hash : Text → Text → Text
  incident_hash stream_id onset_event = canonical_hash h (
      (text "stream_id", Scalar.string stream_id)
      ∷ (text "onset_event", Scalar.string onset_event)
      ∷ [])

  unfoldable pub new_incident : Text → Stream h → Event h → Dict (Evidence h) → Incident h
  new_incident stream_id stream event found = record {
    incident_id = incident_hash stream_id event.event_id;
    stream_id = stream_id;
    status = Status.opened;
    opened_at = event.timestamp;
    resolved_at = none;
    resolution = none;
    synthetic = event.synthetic;
    signals = found;
    baseline = stats h stream.baseline;
    current = stats h stream.current;
  }

  -- `incident.update(status="resolved", …)`
  unfoldable pub resolve : Instant → Incident h → Incident h
  resolve at_time item = record item {
    status = Status.resolved;
    resolved_at = some at_time;
    resolution = some Resolution.recovered;
  }

  -- the branch of `_evaluate` for a stream with an active incident
  unfoldable pub follow :
      Text
      → List (Incident h)
      → Stream h
      → Event h
      → Dict (Evidence h)
      → Result Error (List (Incident h) × Stream h)
  follow id incidents stream event found = elim (find? (has_id id) incidents) [
    | none ↦ err stop_iteration
    | some item ↦
        let observed = record item {
          signals = update_dict item.signals found;
          current = stats h stream.current;
        } in
        do
          done ← recovered h stream observed
          (if done && is_empty found
              then ok (
                update_first (has_id id) (λ _. resolve event.timestamp observed) incidents,
                record stream {
                  active_incident = none;
                  baseline = last_n window stream.current;
                  current = [];
                },
              )
              else ok (update_first (has_id id) (λ _. observed) incidents, stream))
  ]

  -- the branch of `_evaluate` for a stream without one
  unfoldable pub open_incident :
      Text
      → List (Incident h)
      → Stream h
      → Event h
      → Dict (Evidence h)
      → List (Incident h) × Stream h
  open_incident stream_id incidents stream event found =
      if is_empty found
      then (incidents, stream)
      else let item = new_incident stream_id stream event found in
        (
          make_room incidents ++ item ∷ [],
          record stream { active_incident = some item.incident_id },
        )

  unfoldable pub evaluate :
      Text → List (Incident h) → Stream h → Event h → Result Error (List (Incident h) × Stream h)
  evaluate stream_id incidents stream event = elim stream.active_incident [
    | none ↦ ok (open_incident stream_id incidents stream event (signals h stream))
    | some id ↦ follow id incidents stream event (signals h stream)
  ]

  -- `current.append(sample)`, after the oldest row has moved to the baseline or out
  unfoldable pub push : Stream h → Sample h → Stream h
  push stream sample = elim stream.current [
    | [] ↦ record stream { current = sample ∷ [] }
    | oldest ∷ rest ↦
        if length stream.current == window
        then record stream {
          baseline =
              if is_none stream.active_incident && not (is_empty stream.baseline)
              then last_n window (stream.baseline ++ oldest ∷ [])
              else stream.baseline;
          current = rest ++ sample ∷ [];
        }
        else record stream { current = stream.current ++ sample ∷ [] }
  ]

  -- The first full observation window becomes the baseline.
  unfoldable pub promote : Stream h → Stream h
  promote stream =
      if is_empty stream.baseline
        && (length stream.current == window)
        && is_none stream.active_incident
      then record stream { baseline = stream.current; current = [] }
      else stream

  unfoldable pub dimensions_of : Event h → Dimensions
  dimensions_of event = record {
    deployment_id = event.deployment_id;
    agent_id = event.agent_id;
    operation = event.operation;
    synthetic = event.synthetic;
  }

  unfoldable pub stream_hash : Dimensions → Text
  stream_hash d = canonical_hash h (
      (text "deployment_id", Scalar.string d.deployment_id)
      ∷ (text "agent_id", Scalar.string d.agent_id)
      ∷ (text "operation", Scalar.string (operation_text d.operation))
      ∷ (text "synthetic", Scalar.boolean d.synthetic)
      ∷ [])

  -- `canonical_hash(versions)`, of a dict of texts
  unfoldable pub version_hash : Dict Text → Text
  version_hash versions = canonical_hash h (string_members versions)

  unfoldable pub event_digest : Event h → Text
  event_digest event = canonical_hash h (model_dump h event)

  unfoldable pub total_tokens : Option ℕ → Option ℕ → Option ℕ
  total_tokens (some a) (some b) = some (a + b)
  total_tokens (some a) none = none
  total_tokens none other = none

  unfoldable pub sample_of : Event h → Text → Sample h
  sample_of event version_id = record {
    ts = event.timestamp;
    failed = elim event.outcome [ Outcome.failure ↦ 1 | Outcome.success ↦ 0 ];
    latency = event.latency_ms;
    tokens = total_tokens event.input_tokens event.output_tokens;
    version = version_id;
    failure = event.failure_type;
    retries = event.retry_count;
  }

  -- the stream of an event: the one there is, or a new one if there is room
  unfoldable pub stream_for : Dict (Stream h) → Text → Event h → Result Error (Stream h)
  stream_for streams stream_id event = elim (lookup stream_id streams) [
    | some stream ↦ ok stream
    | none ↦
        if leb max_streams (length streams)
        then err stream_limit_exceeded
        else ok (record {
          dimensions = dimensions_of event;
          baseline = [];
          current = [];
          versions = [];
          active_incident = none;
          last_timestamp = event.timestamp;
        })
  ]

  -- `_trim_versions`, and the event's version if there is room
  unfoldable pub add_version : Stream h → Text → Dict Text → Result Error (Stream h)
  add_version stream version_id versions =
      let trimmed = trim_versions stream in
      if not (contains version_id trimmed.versions) && leb max_versions (length trimmed.versions)
      then err version_limit_exceeded
      else ok (record trimmed { versions = insert version_id versions trimmed.versions })

  -- an event that is no duplicate, on its stream
  unfoldable pub update_stream :
      Text → List (Incident h) → Stream h → Event h → Result Error (List (Incident h) × Stream h)
  update_stream stream_id incidents stream event =
      let versions = version_metadata h event in
      let version_id = version_hash versions in
      do
        raise_if (ltb event.timestamp stream.last_timestamp) late_event
        versioned ← add_version stream version_id versions
        let pushed = push versioned (sample_of event version_id)
        (incidents', evaluated) ←
            evaluate stream_id incidents (record pushed { last_timestamp = event.timestamp }) event
        ok (incidents', promote evaluated)

  unfoldable pub accept_event : State h → Event h → Result Error (State h)
  accept_event state event =
      let stream_id = stream_hash (dimensions_of event) in
      do
        raise_if (leb event.timestamp state.replay_floor) stale_replay
        stream ← stream_for state.streams stream_id event
        (incidents, stream') ← update_stream stream_id state.incidents stream event
        ok (record state {
          incidents = incidents;
          streams = insert stream_id stream' state.streams;
          dedup = insert event.event_id (event_digest event, event.timestamp) state.dedup;
        })

  -- an event inside the time window: a duplicate, a conflict, or a new one
  unfoldable pub settle : State h × Counts → Event h → Result Error (State h × Counts)
  settle (state, metrics) event = elim (lookup event.event_id state.dedup) [
    | some previous ↦
        ite (text_dec previous.0 (event_digest event))
          (ok (state, record metrics { duplicates = metrics.duplicates + 1 }))
          (err event_id_conflict)
    | none ↦ do
      state' ← accept_event state event
      ok (state', record metrics { accepted = metrics.accepted + 1 })
  ]

  -- one round of the loop over the events
  unfoldable pub process_event :
      Instant → State h × Counts → Event h → Result Error (State h × Counts)
  process_event server_time acc event = do
    raise_if (leb (event.timestamp + retention) server_time) event_expired
    raise_if (ltb (server_time + future) event.timestamp) event_in_future
    settle acc event

  unfoldable pub process_all :
      Instant → State h × Counts → List (Event h) → Result Error (State h × Counts)
  process_all server_time acc [] = ok acc
  process_all server_time acc (event ∷ events) = do
    acc' ← process_event server_time acc event
    process_all server_time acc' events
