-- ===== src/Detection/Steps.antt =====
-- The calls of src/reliamesh/detection.py that returned, taken apart into their steps.
use reliamesh.Prelude.{
  ℕ, ◌+◌, ◌≤◌, ◌<◌, ◌≡◌, refl, inl, inr, Bool, true, false, Option, none, some, List, Text, ltb,
  leb, ltb→le, leb→lt, arith, Result, ok, ◌>>◌, raise_if, >>=-eq-ok, Option-cases, length, not,
  ◌&&◌,
}
use reliamesh.Prelude.Dict.{lookup, insert}
use reliamesh.Host.{Host, Instant}
use reliamesh.Protocol.Event.{Event, version_metadata}
use reliamesh.Detection.State.{
  Stream, Incident, State, Counts, retention, future, DateTime, aware, naive, epoch, no_counts,
  max_state_bytes,
}
use reliamesh.Detection.Prune.{prune}
use reliamesh.Detection.Batch.{sort_events, bound_dedup, add_totals, process_events}
use reliamesh.Detection.Process.{
  push, promote, evaluate, add_version, update_stream, stream_for, sample_of, version_hash,
  stream_hash, dimensions_of, event_digest, accept_event, settle, process_event, process_all,
}

pub raise_if-eq-ok {ℓ} :
    {E A : Type ℓ} (b : Bool) (e : E) (m : Result E A) {a : A}
    → (raise_if b e >> m) ≡ ok a
    → (b ≡ false) × (m ≡ ok a)
raise_if-eq-ok true e m h = cc
raise_if-eq-ok false e m h = (refl, h)

module _ {h : Host} where
  -- the stream as it goes into `_evaluate`
  abbrev pub with_sample : Stream h → Event h → Stream h
  with_sample s event =
      record (push h s (sample_of h event (version_hash h (version_metadata h event)))) {
        last_timestamp = event.timestamp;
      }

  -- An event that was put on a stream passed the tests, and went through each step.
  pub record Updated (stream_id : Text) (incidents : List (Incident h)) (s : Stream h)
      (event : Event h) (r : List (Incident h) × Stream h) : Type 0 where
    pub versioned : Stream h
    pub evaluated : List (Incident h) × Stream h
    pub in_order : s.last_timestamp ≤ event.timestamp
    pub added :
        add_version h s (version_hash h (version_metadata h event)) (version_metadata h event)
        ≡ ok versioned
    pub ran : evaluate h stream_id incidents (with_sample versioned event) event ≡ ok evaluated
    pub result : r ≡ (evaluated.0, promote h evaluated.1)

  pub update_stream-eq-ok :
      (stream_id : Text) (incidents : List (Incident h)) (s : Stream h) (event : Event h)
      (r : List (Incident h) × Stream h)
      → update_stream h stream_id incidents s event ≡ ok r
      → Updated stream_id incidents s event r
  unfolding update_stream
  update_stream-eq-ok stream_id incidents s event r e =
      let (late, e₁) = raise_if-eq-ok (ltb event.timestamp s.last_timestamp) _ _ e in
      let (versioned, added, e₂) = >>=-eq-ok _ _ e₁ in
      let (evaluated, ran, e₃) = >>=-eq-ok _ _ e₂ in
      record {
        versioned = versioned;
        evaluated = evaluated;
        in_order = ltb→le _ _ late;
        added = added;
        ran = ran;
        result = ground arith;
      }

  abbrev pub id_of : Event h → Text
  id_of event = stream_hash h (dimensions_of h event)

  pub record Accepted (state : State h) (event : Event h) (state' : State h) : Type 0 where
    pub before : Stream h
    pub updated : List (Incident h) × Stream h
    pub above_floor : state.replay_floor < event.timestamp
    pub found : stream_for h state.streams (id_of event) event ≡ ok before
    pub ran : update_stream h (id_of event) state.incidents before event ≡ ok updated
    pub result : state' ≡ record state {
      incidents = updated.0;
      streams = insert (id_of event) updated.1 state.streams;
      dedup = insert event.event_id (event_digest h event, event.timestamp) state.dedup;
    }

  pub accept_event-eq-ok :
      (state : State h) (event : Event h) (state' : State h)
      → accept_event h state event ≡ ok state'
      → Accepted state event state'
  unfolding accept_event
  accept_event-eq-ok state event state' e =
      let (stale, e₁) = raise_if-eq-ok (leb event.timestamp state.replay_floor) _ _ e in
      let (before, found, e₂) = >>=-eq-ok _ _ e₁ in
      let (updated, ran, e₃) = >>=-eq-ok _ _ e₂ in
      record {
        before = before;
        updated = updated;
        above_floor = leb→lt _ _ stale;
        found = found;
        ran = ran;
        result = ground arith;
      }

  -- What a round of the loop did with an event that it did not refuse.
  pub data Handled (acc : State h × Counts) (event : Event h) (acc' : State h × Counts)
      : Type 0 where
    duplicate :
        (previous : Text × Instant)
        → lookup event.event_id acc.0.dedup ≡ some previous
        → previous.0 ≡ event_digest h event
        → acc' ≡ (acc.0, record acc.1 { duplicates = acc.1.duplicates + 1 })
        → Handled acc event acc'
    accepted :
        lookup event.event_id acc.0.dedup ≡ none
        → accept_event h acc.0 event ≡ ok acc'.0
        → acc'.1 ≡ record acc.1 { accepted = acc.1.accepted + 1 }
        → Handled acc event acc'

  pub record Processed (server_time : Instant) (acc : State h × Counts) (event : Event h)
      (acc' : State h × Counts) : Type 0 where
    pub not_expired : server_time < event.timestamp + retention
    pub not_ahead : event.timestamp ≤ server_time + future
    pub handled : Handled acc event acc'

  settle-eq-ok :
      (acc : State h × Counts) (event : Event h) (acc' : State h × Counts)
      → settle h acc event ≡ ok acc'
      → Handled acc event acc'
  unfolding settle
  settle-eq-ok acc event acc' e = elim (Option-cases (lookup event.event_id acc.0.dedup)) [
    | inl new ↦
        let (state', ran, e') = >>=-eq-ok (accept_event h acc.0 event) _ (rw (new, settle) at e) in
        accepted new (ground arith) (ground arith)
    | inr (previous, found) ↦ duplicate previous found (ground arith) (ground arith)
  ]

  pub process_event-eq-ok :
      (server_time : Instant) (acc : State h × Counts) (event : Event h) (acc' : State h × Counts)
      → process_event h server_time acc event ≡ ok acc'
      → Processed server_time acc event acc'
  unfolding process_event
  process_event-eq-ok server_time acc event acc' e =
      let (old, e₁) = raise_if-eq-ok (leb (event.timestamp + retention) server_time) _ _ e in
      let (ahead, e₂) = raise_if-eq-ok (ltb (server_time + future) event.timestamp) _ _ e₁ in
      record {
        not_expired = leb→lt _ _ old;
        not_ahead = ltb→le _ _ ahead;
        handled = settle-eq-ok acc event acc' e₂;
      }

  -- A batch that was committed: its size, its rounds, and the bounds on what it leaves.
  pub record Committed (encoded_size : State h → ℕ) (given : Option (State h))
      (events : List (Event h)) (now : DateTime) (state : State h) (metrics : Counts) : Type 0 where
    pub server_time : Instant
    pub processed : State h
    pub is_aware : now ≡ aware server_time
    pub not_empty : 1 ≤ length events
    pub at_most : length events ≤ 100
    pub ran :
        process_all h server_time (prune given server_time, no_counts) (sort_events h events)
        ≡ ok (processed, metrics)
    pub result : state ≡ add_totals h metrics (bound_dedup h processed)
    pub fits : encoded_size state ≤ max_state_bytes

  pub process_events-eq-ok :
      (encoded_size : State h → ℕ) (given : Option (State h)) (events : List (Event h))
      (now : DateTime) (state : State h) (metrics : Counts)
      → process_events h encoded_size given events now ≡ ok (state, metrics)
      → Committed encoded_size given events now state metrics
  unfolding process_events epoch
  process_events-eq-ok encoded_size given events naive state metrics e = cc
  process_events-eq-ok encoded_size given events (aware t) state metrics e =
      let (size, e₁) =
        raise_if-eq-ok (not (leb 1 (length events) && leb (length events) 100)) _ _ e in
      let (acc, ran, e₂) =
        >>=-eq-ok (process_all h t (prune given t, no_counts) (sort_events h events)) _ e₁ in
      let (big, e₃) =
        raise_if-eq-ok
          (ltb max_state_bytes (encoded_size (add_totals h acc.1 (bound_dedup h acc.0)))) _ _ e₂ in
      record {
        server_time = t;
        processed = acc.0;
        is_aware = refl;
        not_empty = ground arith;
        at_most = ground arith;
        ran = ground arith;
        result = ground arith;
        fits = ground arith;
      }
