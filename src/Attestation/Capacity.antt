-- ===== src/Attestation/Capacity.antt =====
-- The reports of src/reliamesh/attestation.py fit the bounds of the detector.
use reliamesh.Prelude.{
  ◌+◌, ◌≤◌, ◌≡◌, refl, ◌∙◌, Bool, Option, none, some, List, [], ◌∷◌, Text, length, get_elem?, ok,
  arith, All, All-keep, All-append, >>=-eq-ok, Option-cases, inl, inr,
}
use reliamesh.Prelude.Dict.{Dict}
use mathlib.Core.Option
use reliamesh.Host.{Host, Instant}
use reliamesh.Detection.State.{Sample, Stream, Incident, retention}
use reliamesh.Detection.Stats.{stats, sum_failed}
use reliamesh.Detection.Prune.{
  prune_stream, prune_streams, keep_stream, expire, expire_active, live_incident, has_id,
  update_first, trim_versions,
}
use reliamesh.Detection.Rows.{Rows, rebuild-Rows}
use reliamesh.Detection.Shapes.{PrunedTo, rebuilt, filtered, fresh_rows, prune_stream-PrunedTo}
use reliamesh.Detection.Windows.{IsBounded}
use reliamesh.Detection.Summary.{StreamView, stream_view, stream_views, fingerprints}

module _ {h : Host} where
  -- A row counts one failure at most.
  abbrev pub IsMarked : Sample h → Type 0
  IsMarked row = row.failed ≤ 1

  sum_failed-le : (rows : List (Sample h)) → All IsMarked rows → sum_failed rows ≤ length rows
  unfolding sum_failed
  sum_failed-le [] m = omega arith
  sum_failed-le (row ∷ rows) m = omega (arith, m.0, sum_failed-le rows m.1)

  -- what is bounded in the view of a stream
  abbrev pub IsFitting : StreamView h → Type 0
  IsFitting s =
      (s.baseline.count ≤ 50)
      × (s.baseline.failures ≤ s.baseline.count)
      × (s.current.count ≤ 50)
      × (s.current.failures ≤ s.current.count)

  stream_view-IsFitting :
      (e : Text × Stream h) (v : StreamView h)
      → IsBounded e.1
      → Rows IsMarked e.1
      → stream_view h e ≡ ok v
      → IsFitting v
  unfolding stream_view stats
  stream_view-IsFitting e v b m returned =
      let (groups, _, same_view) = >>=-eq-ok (fingerprints h e.1) _ returned in
      ground (
        arith,
        same_view,
        b.baseline_bound,
        b.current_bound,
        sum_failed-le e.1.baseline m.in_baseline,
        sum_failed-le e.1.current m.in_current,
      )

  pub stream_views-IsFitting :
      (streams : Dict (Stream h)) (vs : List (StreamView h))
      → All (λ e. IsBounded e.1) streams
      → All (λ e. Rows IsMarked e.1) streams
      → stream_views h streams ≡ ok vs
      → All IsFitting vs × (length vs ≡ length streams)
  unfolding stream_views
  stream_views-IsFitting [] vs b m returned = ground (arith, returned)
  stream_views-IsFitting (e ∷ streams) vs b m returned =
      let (v, one, h1) = >>=-eq-ok (stream_view h e) _ returned in
      let (rest, others, h2) = >>=-eq-ok (stream_views h streams) _ h1 in
      let (fits, count) = stream_views-IsFitting streams rest b.1 m.1 others in
      ground (arith, h2, fits, count, stream_view-IsFitting e v b.0 m.0 one)

  -- pruning keeps rows
  trim_versions-IsMarked : (s : Stream h) → Rows IsMarked s → Rows IsMarked (trim_versions s)
  unfolding trim_versions
  trim_versions-IsMarked s m = record { in_baseline = m.in_baseline; in_current = m.in_current }

  prune_stream-IsMarked :
      (now : Instant) (incidents : List (Incident h)) (s t : Stream h)
      → Rows IsMarked s
      → (prune_stream now incidents s).0 ≡ some t
      → Rows IsMarked t
  prune_stream-IsMarked now incidents s t m e = pruned (prune_stream-PrunedTo now incidents s t e).1
    where
      baseline : All IsMarked (fresh_rows now s.baseline)
      baseline = All-keep IsMarked _ s.baseline m.in_baseline

      current : All IsMarked (fresh_rows now s.current)
      current = All-keep IsMarked _ s.current m.in_current

      pruned : PrunedTo now s t → Rows IsMarked t
      pruned (rebuilt p) = rw p (
          trim_versions-IsMarked _
            (rebuild-Rows IsMarked _ _ (All-append IsMarked _ _ baseline current)))
      pruned (filtered active p) =
          rw p (trim_versions-IsMarked _ (record { in_baseline = baseline; in_current = current }))

  length-update_first :
      (p : Incident h → Bool) (f : Incident h → Incident h) (items : List (Incident h))
      → length (update_first p f items) ≡ length items
  unfolding update_first
  length-update_first p f [] = refl
  length-update_first p f (x ∷ items) = ground (arith, length-update_first p f items)

  length-expire_active :
      (expiry : Option Instant) (active : Option Text) (items : List (Incident h))
      → length (expire_active expiry active items) ≡ length items
  unfolding expire_active
  length-expire_active expiry none items = refl
  length-expire_active expiry (some id) items =
      length-update_first (has_id id) (expire expiry) items

  length-prune_stream :
      (now : Instant) (incidents : List (Incident h)) (s : Stream h)
      → length (prune_stream now incidents s).1 ≡ length incidents
  unfolding prune_stream
  length-prune_stream now incidents s = ground (
    arith,
    length-expire_active
        (Option.map (λ (row : Sample h). row.ts + retention) (get_elem? s.baseline 0))
        (live_incident incidents s.active_incident) incidents,
  )

  pub prune_streams-IsMarked :
      (now : Instant) (incidents : List (Incident h)) (streams : Dict (Stream h))
      → All (λ e. Rows IsMarked e.1) streams
      → All (λ e. Rows IsMarked e.1) (prune_streams now incidents streams).0
        × (length (prune_streams now incidents streams).1 ≡ length incidents)
  unfolding prune_streams keep_stream
  prune_streams-IsMarked now incidents [] m = (tt, refl)
  prune_streams-IsMarked now incidents (e ∷ streams) m =
      let (marked, count) =
        prune_streams-IsMarked now (prune_stream now incidents e.1).1 streams m.1 in
      let whole = count ∙ length-prune_stream now incidents e.1 in
      elim (Option-cases (prune_stream now incidents e.1).0) [
        | inl gone ↦ rw (gone, keep_stream) (marked, whole)
        | inr (t, there) ↦
            rw (there, keep_stream)
              ((prune_stream-IsMarked now incidents e.1 t m.0 there, marked), whole)
      ]
