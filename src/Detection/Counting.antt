-- ===== src/Detection/Counting.antt =====
-- What a batch counts.
use reliamesh.Prelude.{
  ℕ, suc, ◌+◌, ◌≡◌, refl, ap, ◌∙◌, some, List, [], ◌∷◌, length, take, Text, ◌-◌, arith, Bool, ok,
  >>=-eq-ok,
}
use reliamesh.Prelude.Dict.{Dict}
use reliamesh.Host.{Host, Instant}
use reliamesh.Protocol.Event.{Event}
use reliamesh.Detection.State.{State, Counts, DateTime, max_dedup}
use reliamesh.Detection.Prune.{prune, or_empty}
use reliamesh.Detection.Process.{process_event, process_all}
use reliamesh.Detection.Batch.{
  insert_by, sort_by, sort_events, sort_dedup, bound_dedup, evict, add_totals, process_events,
}
use reliamesh.Detection.Steps.{
  accept_event-eq-ok, process_event-eq-ok, process_events-eq-ok, Handled, duplicate, accepted,
}

length-insert_by {ℓ} :
    {A : Type ℓ} (le : A → A → Bool) (x : A) (xs : List A)
    → length (insert_by le x xs) ≡ suc (length xs)
unfolding insert_by
length-insert_by le x [] = refl
length-insert_by le x (y ∷ ys) = ground (arith, length-insert_by le x ys)

pub length-sort_by {ℓ} :
    {A : Type ℓ} (le : A → A → Bool) (xs : List A) → length (sort_by le xs) ≡ length xs
unfolding sort_by
length-sort_by le [] = refl
length-sort_by le (x ∷ xs) =
    omega (arith, length-insert_by le x (sort_by le xs), length-sort_by le xs)

module _ {h : Host} where
  evict-totals : (es : Dict (Text × Instant)) (s : State h) → (evict h es s).totals ≡ s.totals
  unfolding evict
  evict-totals [] s = refl
  evict-totals (e ∷ es) s = evict-totals es _

  bound_dedup-totals : (s : State h) → (bound_dedup h s).totals ≡ s.totals
  unfolding bound_dedup
  bound_dedup-totals s =
      ground (arith, evict-totals (take (length s.dedup - max_dedup) (sort_dedup h s.dedup)) s)

  -- A round adds one to one of the two counts, and leaves the lifetime totals alone.
  round-counts :
      (t : Instant) (acc acc' : State h × Counts) (e : Event h)
      → process_event h t acc e ≡ ok acc'
      → (acc'.1.accepted + acc'.1.duplicates ≡ suc (acc.1.accepted + acc.1.duplicates))
        × (acc'.0.totals ≡ acc.0.totals)
  round-counts t acc acc' e ran = counted (process_event-eq-ok t acc e acc' ran).handled
    where
      counted :
          Handled acc e acc'
          → (acc'.1.accepted + acc'.1.duplicates ≡ suc (acc.1.accepted + acc.1.duplicates))
            × (acc'.0.totals ≡ acc.0.totals)
      counted (duplicate previous found same q) = rw q (omega arith, refl)
      counted (accepted new took q) = (
        rw q (omega arith),
        ap (λ (x : State h). x.totals) (accept_event-eq-ok acc.0 e acc'.0 took).result,
      )

  all_counts :
      (t : Instant) (acc acc' : State h × Counts) (events : List (Event h))
      → process_all h t acc events ≡ ok acc'
      → (acc'.1.accepted + acc'.1.duplicates ≡ acc.1.accepted + acc.1.duplicates + length events)
        × (acc'.0.totals ≡ acc.0.totals)
  unfolding process_all
  all_counts t acc acc' [] e = ground arith
  all_counts t acc acc' (event ∷ events) e =
      let (mid, ran, rest) = >>=-eq-ok (process_event h t acc event) _ e in
      let (one, kept) = round-counts t acc mid event ran in
      let (more, same) = all_counts t mid acc' events rest in (omega arith, same ∙ kept)

  -- Each event of a committed batch is counted once, as accepted or as a duplicate, and the
  -- lifetime totals grow by just these counts.
  pub process_events-counts :
      (encoded_size : State h → ℕ) (s : State h) (events : List (Event h)) (now : DateTime)
      (state : State h) (metrics : Counts)
      → process_events h encoded_size (some s) events now ≡ ok (state, metrics)
      → (metrics.accepted + metrics.duplicates ≡ length events)
        × (state.totals.accepted ≡ s.totals.accepted + metrics.accepted)
        × (state.totals.duplicates ≡ s.totals.duplicates + metrics.duplicates)
  unfolding prune or_empty sort_events add_totals
  process_events-counts encoded_size s events now state metrics e =
      let b = process_events-eq-ok encoded_size (some s) events now state metrics e in
      let (sum, same) =
        all_counts b.server_time _ (b.processed, metrics) (sort_events h events) b.ran in
      let totals = bound_dedup-totals b.processed ∙ same in
      (
        omega (arith, length-sort_by _ events),
        rw (b.result, totals) refl,
        rw (b.result, totals) refl,
      )
