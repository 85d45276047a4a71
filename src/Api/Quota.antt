-- ===== src/Api/Quota.antt =====
-- The daily quota of events.
use reliamesh.Prelude.{
  ℕ, ◌+◌, ◌≤◌, ◌≡◌, sym, ap, ◌∙◌, Option, some, List, ok, arith, Result-cases, inl, inr,
}
use reliamesh.Host.{Host, Instant}
use reliamesh.Protocol.Event.{Event}
use reliamesh.Detection.State.{State, Counts, Usage, aware}
use reliamesh.Detection.Batch.{process_events}
use reliamesh.Api.Endpoints.{day_of, used_today, update}

module _ (h : Host) (encoded_size : State h → ℕ) (daily_events : ℕ) where
  -- the day's count in the state that follows
  abbrev counted : Instant → Option (State h) → Counts → Usage
  counted now state result = record {
    day = day_of now;
    events = used_today h now state + result.accepted;
  }

  update-eq-ok :
      (events : List (Event h)) (now : Instant) (state : Option (State h)) (next : State h)
      (result : Counts)
      → update h encoded_size daily_events events now state ≡ ok (next, result)
      → (new : State h) × (process_events h encoded_size state events (aware now)
          ≡ ok (new, result))
        × (used_today h now state + result.accepted ≤ daily_events)
        × (next ≡ record new { usage = some (counted now state result) })
  unfolding update
  update-eq-ok events now state next result e =
      elim (Result-cases (process_events h encoded_size state events (aware now))) [
        | inl (r, q) ↦ (r.0, ground (arith, e, q), ground (arith, e, q), ground (arith, e, q))
        | inr (error, q) ↦ ground (arith, e, q)
      ]

  used_today-counted :
      (now later : Instant) (state : Option (State h)) (result : Counts) (new : State h)
      → day_of later ≡ day_of now
      → used_today h later (some (record new { usage = some (counted now state result) }))
        ≡ used_today h now state + result.accepted
  unfolding used_today
  used_today-counted now later state result new same = ground (arith, same)

  -- Where the ingestion callback returns, the day's count at any later or earlier time of the same day
  -- is the count before plus the accepted events, and is within the daily limit; and all but the count
  -- is as `process_events` leaves it.
  pub update-quota :
      (events : List (Event h)) (now : Instant) (state : Option (State h)) (next : State h)
      (result : Counts) (later : Instant)
      → update h encoded_size daily_events events now state ≡ ok (next, result)
      → day_of later ≡ day_of now
      → (used_today h later (some next) ≡ used_today h now state + result.accepted)
        × (used_today h later (some next) ≤ daily_events)
        × ((new : State h) × (process_events h encoded_size state events (aware now)
              ≡ ok (new, result))
            × (next ≡ record new { usage = next.usage }))
  update-quota events now state next result later e same =
      let (new, q, bound, shape) = update-eq-ok events now state next result e in
      let used : used_today h later (some next) ≡ used_today h now state + result.accepted =
        rw shape (used_today-counted now later state result new same) in
      (
        used,
        ground (arith, used, bound),
        (new, q, shape ∙ sym (ap (λ (x : State h). record new { usage = x.usage }) shape)),
      )
