-- ===== src/Detection/Batch.antt =====
-- The order of a batch, the bound on the replay cache, and `process_events` of
-- src/reliamesh/detection.py.
use reliamesh.Prelude.{
  ℕ, ◌+◌, ◌-◌, max, Bool, Option, List, [], ◌∷◌, Text, text_le, ltb, leb, ◌==◌, if◌then◌else◌,
  length, take, ◌&&◌, ◌||◌, not, Result, ok, ◌>>=◌, ◌>>◌, raise_if,
}
use reliamesh.Prelude.Dict.{Dict, erase}
use reliamesh.Host.{Host, Instant}
use reliamesh.Protocol.Event.{Event}
use reliamesh.Detection.State.{
  State, Counts, Error, DateTime, no_counts, epoch, max_dedup, max_state_bytes, batch_size_exceeded,
  state_capacity_exceeded,
}
use reliamesh.Detection.Prune.{prune}
use reliamesh.Detection.Process.{process_all}

-- the order of the keys `(timestamp, text)`
unfoldable pub key_le : Instant → Text → Instant → Text → Bool
key_le t x u y = ltb t u || ((t == u) && text_le x y)

module _ {ℓ} {A : Type ℓ} (le : A → A → Bool) where
  unfoldable pub insert_by : A → List A → List A
  insert_by x [] = x ∷ []
  insert_by x (y ∷ ys) = if le x y then x ∷ y ∷ ys else y ∷ insert_by x ys

  -- `sorted`, which is stable
  unfoldable pub sort_by : List A → List A
  sort_by [] = []
  sort_by (x ∷ xs) = insert_by x (sort_by xs)

module _ (h : Host) where
  unfoldable pub sort_events : List (Event h) → List (Event h)
  sort_events =
      sort_by (λ (a : Event h) (b : Event h). key_le a.timestamp a.event_id b.timestamp b.event_id)

  -- the entries of the cache, the oldest first
  unfoldable pub sort_dedup : Dict (Text × Instant) → Dict (Text × Instant)
  sort_dedup = sort_by (λ a b. key_le a.1.1 a.0 b.1.1 b.0)

  -- the loop that pops entries from the cache and raises the floor to each
  unfoldable pub evict : Dict (Text × Instant) → State h → State h
  evict [] state = state
  evict (e ∷ es) state =
      evict es (record state {
        replay_floor = max state.replay_floor e.1.1;
        dedup = erase e.0 state.dedup;
      })

  unfoldable pub bound_dedup : State h → State h
  bound_dedup state =
      if ltb max_dedup (length state.dedup)
      then evict (take (length state.dedup - max_dedup) (sort_dedup state.dedup)) state
      else state

  unfoldable pub add_totals : Counts → State h → State h
  add_totals metrics state = record state {
    totals = record {
      accepted = state.totals.accepted + metrics.accepted;
      duplicates = state.totals.duplicates + metrics.duplicates;
    };
  }

  -- `encoded_size` is the number of bytes of the state's compact JSON.
  unfoldable pub process_events :
      (State h → ℕ) → Option (State h) → List (Event h) → DateTime → Result Error (State h × Counts)
  process_events encoded_size given events now = do
    server_time ← epoch now
    raise_if (not (leb 1 (length events) && leb (length events) 100)) batch_size_exceeded
    (processed, metrics) ←
        process_all h server_time (prune given server_time, no_counts) (sort_events events)
    let result = add_totals metrics (bound_dedup processed)
    raise_if (ltb max_state_bytes (encoded_size result)) state_capacity_exceeded
    ok (result, metrics)
