-- ===== src/Detection/Invariant.antt =====
-- The invariant of a tenant's detection state, kept by every batch.
use reliamesh.Prelude.{
  ℕ, ◌≤◌, ◌≡◌, inl, inr, Option, none, some, List, [], ◌∷◌, Text, length, keep, arith, All, ok,
  >>=-eq-ok, Option-cases,
}
use reliamesh.Prelude.Dict.{
  Dict, lookup, insert, All-lookup, All-insert, length-insert_old, length-insert_new, IsDistinct,
  insert-IsDistinct, keep-IsDistinct,
}
use reliamesh.Host.{Host, Instant}
use reliamesh.Protocol.Event.{Event}
use reliamesh.Detection.State.{
  Stream, Incident, State, Counts, DateTime, max_streams, empty, max_dedup, max_state_bytes,
}
use reliamesh.Detection.Prune.{prune_stream, prune_streams, keep_stream, prune, or_empty, is_fresh}
use reliamesh.Detection.Process.{stream_for, accept_event, process_event, process_all}
use reliamesh.Detection.Batch.{add_totals, process_events}
use reliamesh.Detection.Steps.{
  id_of, accept_event-eq-ok, process_event-eq-ok, process_events-eq-ok, Handled, duplicate,
  accepted,
}
use reliamesh.Detection.Replay.{bound_dedup-Evicted}
use reliamesh.Detection.Windows.{IsBounded, prune_stream-IsBounded, update_stream-IsBounded}
use reliamesh.Detection.Labels.{IsLabelled, prune_stream-IsLabelled, update_stream-IsLabelled}
use reliamesh.Detection.Order.{IsOrdered, prune_stream-IsOrdered, update_stream-IsOrdered}

module _ {h : Host} where
  -- A stream's windows are bounded and chronological, and its rows name labels that it has.
  pub record IsSound (s : Stream h) : Type 0 where
    pub bounded : IsBounded s
    pub ordered : IsOrdered s
    pub labelled : IsLabelled s

  pub record IsValid (state : State h) : Type 0 where
    pub streams_bound : length state.streams ≤ max_streams
    pub streams_sound : All (λ e. IsSound e.1) state.streams
    pub dedup_distinct : IsDistinct state.dedup

  pub empty-IsValid : IsValid (empty h)
  unfolding empty
  empty-IsValid = omega arith

  prune_streams-IsSound :
      (now : Instant) (incidents : List (Incident h)) (streams : Dict (Stream h))
      → All (λ e. IsSound e.1) streams
      → All (λ e. IsSound e.1) (prune_streams now incidents streams).0
        × (length (prune_streams now incidents streams).0 ≤ length streams)
  unfolding prune_streams keep_stream
  prune_streams-IsSound now incidents [] a = (tt, omega arith)
  prune_streams-IsSound now incidents (e ∷ streams) a =
      let rest = prune_streams-IsSound now (prune_stream now incidents e.1).1 streams a.1 in
      elim (Option-cases (prune_stream now incidents e.1).0) [
        | inl gone ↦ rw (gone, keep_stream) (rest.0, omega (arith, rest.1))
        | inr (t, there) ↦
            rw (there, keep_stream)
              (
                (
                  record {
                    bounded = prune_stream-IsBounded now incidents e.1 t a.0.bounded there;
                    ordered = prune_stream-IsOrdered now incidents e.1 t a.0.ordered there;
                    labelled = prune_stream-IsLabelled now incidents e.1 t a.0.labelled there;
                  },
                  rest.0,
                ),
                omega (arith, rest.1),
              )
      ]

  pub prune-IsValid :
      (state : State h) (now : Instant) → IsValid state → IsValid (prune (some state) now)
  unfolding prune or_empty
  prune-IsValid state now v =
      let (sound, count) =
        prune_streams-IsSound now
          (keep (λ (item : Incident h). is_fresh now item.opened_at) state.incidents) state.streams
          v.streams_sound in
      record {
        streams_bound = omega (arith, count, v.streams_bound);
        streams_sound = sound;
        dedup_distinct = keep-IsDistinct _ state.dedup v.dedup_distinct;
      }

  stream_for-IsSound :
      (streams : Dict (Stream h)) (stream_id : Text) (event : Event h) (s : Stream h)
      → All (λ e. IsSound e.1) streams
      → length streams ≤ max_streams
      → stream_for h streams stream_id event ≡ ok s
      → IsSound s × ((t : Stream h) → length (insert stream_id t streams) ≤ max_streams)
  unfolding stream_for
  stream_for-IsSound streams stream_id event s a n e =
      elim (Option-cases (lookup stream_id streams)) [
        | inl new ↦ (
          record { bounded = ground arith; ordered = ground arith; labelled = ground arith },
          λ t. ground (arith, length-insert_new stream_id t streams new),
        )
        | inr (old, found) ↦ (
          ground (arith, All-lookup IsSound stream_id old streams a found),
          λ t. omega (arith, length-insert_old stream_id t old streams found),
        )
      ]

  accept_event-IsValid :
      (state : State h) (event : Event h) (state' : State h)
      → IsValid state
      → accept_event h state event ≡ ok state'
      → IsValid state'
  accept_event-IsValid state event state' v e =
      let a = accept_event-eq-ok state event state' e in
      let (sound, room) =
        stream_for-IsSound state.streams (id_of event) event a.before v.streams_sound
          v.streams_bound a.found in
      let sound' : IsSound a.updated.1 = record {
        bounded = update_stream-IsBounded _ _ a.before event sound.bounded a.ran;
        ordered = update_stream-IsOrdered _ _ a.before event a.updated sound.ordered a.ran;
        labelled = update_stream-IsLabelled _ _ a.before event a.updated sound.labelled a.ran;
      } in
      rw a.result (record {
        streams_bound = room a.updated.1;
        streams_sound =
            All-insert IsSound (id_of event) a.updated.1 state.streams v.streams_sound sound';
        dedup_distinct = insert-IsDistinct event.event_id _ state.dedup v.dedup_distinct;
      })

  process_event-IsValid :
      (server_time : Instant) (acc : State h × Counts) (event : Event h) (acc' : State h × Counts)
      → IsValid acc.0
      → process_event h server_time acc event ≡ ok acc'
      → IsValid acc'.0
  process_event-IsValid server_time acc event acc' v e =
      handled (process_event-eq-ok server_time acc event acc' e).handled
    where
      handled : Handled acc event acc' → IsValid acc'.0
      handled (duplicate previous found same r) = rw r v
      handled (accepted new ran r) = accept_event-IsValid acc.0 event acc'.0 v ran

  pub process_all-IsValid :
      (server_time : Instant) (acc : State h × Counts) (events : List (Event h))
      (acc' : State h × Counts)
      → IsValid acc.0
      → process_all h server_time acc events ≡ ok acc'
      → IsValid acc'.0
  unfolding process_all
  process_all-IsValid server_time acc [] acc' v e = ground arith
  process_all-IsValid server_time acc (event ∷ events) acc' v e =
      let (next, ran, rest) = >>=-eq-ok (process_event h server_time acc event) _ e in
      process_all-IsValid server_time next events acc'
        (process_event-IsValid server_time acc event next v ran) rest

  -- a state, or the empty object of a new tenant
  abbrev pub IsValidGiven : Option (State h) → Type 0
  IsValidGiven none = Unit
  IsValidGiven (some state) = IsValid state

  prune-IsValidGiven :
      (given : Option (State h)) (now : Instant) → IsValidGiven given → IsValid (prune given now)
  unfolding prune or_empty empty prune_streams
  prune-IsValidGiven none now v = omega arith
  prune-IsValidGiven (some state) now v = prune-IsValid state now v

  -- A batch that is committed leaves at most 16 streams, whose windows hold at most 50 rows each, in
  -- chronological order, with at most eight versions, among them those of all rows; at most 2,048
  -- entries in the replay cache, no event twice; and no more than the permitted bytes.
  pub process_events-IsValid :
      (encoded_size : State h → ℕ) (given : Option (State h)) (events : List (Event h))
      (now : DateTime) (state : State h) (metrics : Counts)
      → IsValidGiven given
      → process_events h encoded_size given events now ≡ ok (state, metrics)
      → IsValid state × (length state.dedup ≤ max_dedup) × (encoded_size state ≤ max_state_bytes)
  unfolding add_totals
  process_events-IsValid encoded_size given events now state metrics v e =
      let b = process_events-eq-ok encoded_size given events now state metrics e in
      let w =
        process_all-IsValid b.server_time _ _ (b.processed, metrics)
          (prune-IsValidGiven given b.server_time v) b.ran in
      let bounded = bound_dedup-Evicted b.processed w.dedup_distinct in
      (
        rw b.result (record {
          streams_bound = rw bounded.same_streams w.streams_bound;
          streams_sound = rw bounded.same_streams w.streams_sound;
          dedup_distinct = bounded.distinct;
        }),
        rw b.result (omega (arith, bounded.shorter)),
        b.fits,
      )
