-- ===== src/Attestation/Totals.antt =====
-- The reports of src/reliamesh/attestation.py on the summaries of the detector pass their validators.
use reliamesh.Prelude.{
  ℕ, ◌+◌, ◌*◌, ◌≤◌, ◌≡◌, refl, ap, Bool, true, some, List, [], ◌∷◌, Text, text_le, length, keep, ok,
  arith, All, All-map, All-keep, length-keep-le, >>=-eq-ok, inl, inr, ◌⊎◌,
}
use mathlib.Core.Path.{subst}
use reliamesh.Host.{Host, Instant}
use reliamesh.Detection.State.{Stream, State, Incident, aware, epoch, Status, max_incidents}
use reliamesh.Detection.Batch.{sort_by}
use reliamesh.Detection.Prune.{prune, or_empty, is_fresh}
use reliamesh.Detection.Rows.{Rows}
use reliamesh.Detection.Windows.{IsBounded}
use reliamesh.Detection.Invariant.{IsSound, IsValid, prune-IsValid}
use reliamesh.Detection.Summary.{StreamView, View, stream_views, summarize}
use reliamesh.Detection.Reads.{All-sort_by}
use reliamesh.Detection.Counting.{length-sort_by}
use reliamesh.Attestation.Capacity.{
  IsMarked, IsFitting, stream_views-IsFitting, prune_streams-IsMarked,
}
use reliamesh.Attestation.Report.{
  are_in_range, is_version, counts, validate, sum, selected_streams, selected_incidents,
  with_status, project, report_from_summary,
}

module _ {A : Type 0} where
  sum-le : (f g : A → ℕ) (xs : List A) → All (λ x. f x ≤ g x) xs → sum f xs ≤ sum g xs
  unfolding sum
  sum-le f g [] m = omega arith
  sum-le f g (x ∷ xs) m = omega (arith, m.0, sum-le f g xs m.1)

  sum-capacity : (f : A → ℕ) (xs : List A) → All (λ x. f x ≤ 50) xs → sum f xs ≤ length xs * 50
  unfolding sum
  sum-capacity f [] m = omega arith
  sum-capacity f (x ∷ xs) m = omega (arith, m.0, sum-capacity f xs m.1)

Status-cases : (s : Status) → (s ≡ Status.opened) ⊎ ((s ≡ Status.resolved) ⊎ (s ≡ Status.expired))
Status-cases Status.opened = inl refl
Status-cases Status.resolved = inr (inl refl)
Status-cases Status.expired = inr (inr refl)

module _ {h : Host} where
  -- an incident has one status
  with_status-sum :
      (items : List (Incident h))
      → with_status Status.opened items
          + with_status Status.resolved items
          + with_status Status.expired items
        ≡ length items
  unfolding with_status
  with_status-sum [] = omega arith
  with_status-sum (x ∷ items) = ground (arith, Status-cases x.status, with_status-sum items)

  selected_streams-All :
      (synthetic : Bool) (streams : List (StreamView h))
      → All IsFitting streams
      → All IsFitting (selected_streams synthetic streams)
  unfolding selected_streams
  selected_streams-All synthetic streams fits = All-keep IsFitting _ streams fits

  length-selected_streams :
      (synthetic : Bool) (streams : List (StreamView h))
      → length (selected_streams synthetic streams) ≤ length streams
  unfolding selected_streams
  length-selected_streams synthetic streams = length-keep-le _ streams

  length-selected_incidents :
      (synthetic : Bool) (streams : List (StreamView h)) (incidents : List (Incident h))
      → length (selected_incidents synthetic streams incidents) ≤ length incidents
  unfolding selected_incidents
  length-selected_incidents synthetic streams incidents = length-keep-le _ incidents

  -- a report on streams and incidents within the bounds passes every validator
  validate-project :
      (stamp : Instant → Text) (is_canonical : Text → Bool) (summary : View h) (synthetic : Bool)
      (server_version : Text) (t : Instant)
      → All IsFitting summary.streams
      → length summary.streams ≤ 16
      → length summary.incidents ≤ 32
      → is_version server_version ≡ true
      → is_canonical (stamp t) ≡ true
      → report_from_summary stamp is_canonical summary synthetic server_version (aware t)
        ≡ ok (project summary synthetic server_version (stamp t))
  unfolding report_from_summary validate counts are_in_range project
  validate-project stamp is_canonical summary synthetic server_version t fits ns ni v c = ground (
    arith,
    v,
    c,
    ns,
    ni,
    length-selected_streams synthetic summary.streams,
    length-selected_incidents synthetic streams summary.incidents,
    with_status-sum incidents,
    sum-capacity (λ (s : StreamView h). s.baseline.count) streams
        (All-map IsFitting _ (λ s f. f.0) streams selected),
    sum-capacity (λ (s : StreamView h). s.current.count) streams
        (All-map IsFitting _ (λ s f. f.2) streams selected),
    sum-le (λ (s : StreamView h). s.baseline.failures) (λ (s : StreamView h). s.baseline.count)
        streams (All-map IsFitting _ (λ s f. f.1) streams selected),
    sum-le (λ (s : StreamView h). s.current.failures) (λ (s : StreamView h). s.current.count)
        streams (All-map IsFitting _ (λ s f. f.3) streams selected),
  )
    where
      streams : List (StreamView h)
      streams = selected_streams synthetic summary.streams

      incidents : List (Incident h)
      incidents = selected_incidents synthetic streams summary.incidents

      selected : All IsFitting streams
      selected = selected_streams-All synthetic summary.streams fits

  -- Where a state is valid, each of its rows counts one failure at most, and it has at most 32
  -- incidents, the summary at an aware time gives a report that passes every validator, whichever
  -- streams are chosen, for a server version of the pattern and a stamp that the validator of
  -- timestamps accepts.
  pub report_from_summary-total :
      (stamp : Instant → Text) (is_canonical : Text → Bool) (state : State h) (summary : View h)
      (synthetic : Bool) (server_version : Text) (now t : Instant)
      → IsValid state
      → All (λ e. Rows IsMarked e.1) state.streams
      → length state.incidents ≤ max_incidents
      → is_version server_version ≡ true
      → is_canonical (stamp t) ≡ true
      → summarize h (some state) (aware now) ≡ ok summary
      → report_from_summary stamp is_canonical summary synthetic server_version (aware t)
        ≡ ok (project summary synthetic server_version (stamp t))
  unfolding summarize epoch prune or_empty
  report_from_summary-total stamp is_canonical state summary synthetic server_version now t valid
        marked ni v c returned =
      let view = prune (some state) now in
      let le = λ (a b : Text × Stream h). text_le a.0 b.0 in
      let (m, count) =
        prune_streams-IsMarked now
          (keep (λ (item : Incident h). is_fresh now item.opened_at) state.incidents) state.streams
          marked in
      let pruned = prune-IsValid state now valid in
      let (views, read, same_view) =
        >>=-eq-ok (stream_views h (sort_by le view.streams)) _ returned in
      let (fits, n) =
        stream_views-IsFitting (sort_by le view.streams) views
          (All-sort_by (λ (e : Text × Stream h). IsBounded e.1) le view.streams
            (All-map (λ (e : Text × Stream h). IsSound e.1) (λ (e : Text × Stream h). IsBounded e.1)
              (λ e s. s.bounded) view.streams pruned.streams_sound))
          (All-sort_by (λ (e : Text × Stream h). Rows IsMarked e.1) le view.streams m) read in
      let same_streams : views ≡ summary.streams = ground (arith, same_view) in
      let same_incidents : view.incidents ≡ summary.incidents = ground (arith, same_view) in
      validate-project stamp is_canonical summary synthetic server_version t
        (subst (All IsFitting) same_streams fits)
        (omega
          (arith, n, length-sort_by le view.streams, pruned.streams_bound, ap length same_streams))
        (omega (
          arith,
          count,
          ni,
          length-keep-le (λ (item : Incident h). is_fresh now item.opened_at) state.incidents,
          ap length same_incidents,
        ))
        v c
