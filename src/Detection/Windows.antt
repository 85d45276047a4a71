-- ===== src/Detection/Windows.antt =====
-- The bounds on what one stream holds: the two windows and the version labels.
use reliamesh.Prelude.{
  ◌+◌, ◌≤◌, ◌≡◌, some, List, [], ◌∷◌, ◌++◌, Text, length, keep, arith, length-append, length-take,
  length-drop, length-last_n, length-keep-le, ok, inl, inr, Option-cases, List-cases, All,
}
use reliamesh.Prelude.Dict.{Dict, lookup, length-insert_old, length-insert_new, All-lookup}
use reliamesh.Host.{Host, Instant}
use reliamesh.Protocol.Event.{Event, version_metadata}
use reliamesh.Detection.State.{Sample, Stream, Incident, Evidence, window, max_versions}
use reliamesh.Detection.Signals.{signals}
use reliamesh.Detection.Prune.{is_fresh, trim_versions, rebuild, prune_stream}
use reliamesh.Detection.Process.{
  push, promote, follow, open_incident, evaluate, add_version, update_stream, stream_for, sample_of,
  version_hash,
}
use reliamesh.Detection.Steps.{with_sample, update_stream-eq-ok}

module _ {h : Host} where
  -- No window holds more than fifty rows, and no stream more than eight version labels.
  pub record IsBounded (s : Stream h) : Type 0 where
    pub baseline_bound : length s.baseline ≤ window
    pub current_bound : length s.current ≤ window
    pub versions_bound : length s.versions ≤ max_versions

  pub trim_versions-IsBounded : (s : Stream h) → IsBounded s → IsBounded (trim_versions s)
  unfolding trim_versions
  trim_versions-IsBounded s b = record {
    baseline_bound = b.baseline_bound;
    current_bound = b.current_bound;
    versions_bound = omega (arith, length-keep-le _ s.versions, b.versions_bound);
  }

  pub rebuild-IsBounded :
      (s : Stream h) (rows : List (Sample h))
      → length rows ≤ window + window
      → length s.versions ≤ max_versions
      → IsBounded (rebuild s rows)
  unfolding rebuild
  rebuild-IsBounded s rows r v = ground (arith, length-take window rows, length-drop window rows)

  pub prune_stream-IsBounded :
      (now : Instant) (incidents : List (Incident h)) (s t : Stream h)
      → IsBounded s
      → (prune_stream now incidents s).0 ≡ some t
      → IsBounded t
  unfolding prune_stream
  prune_stream-IsBounded now incidents s t b e = grind (
    arith,
    length-keep-le,
    trim_versions-IsBounded,
    rebuild-IsBounded,
    length-append (keep (λ (row : Sample h). is_fresh now row.ts) s.baseline)
        (keep (λ (row : Sample h). is_fresh now row.ts) s.current),
  )

  pub push-IsBounded :
      (s : Stream h) (sample : Sample h) → IsBounded s → IsBounded (push h s sample)
  unfolding push
  push-IsBounded s sample b = elim (List-cases s.current) [
    | inl e ↦ rw e (record {
      baseline_bound = b.baseline_bound;
      current_bound = omega arith;
      versions_bound = b.versions_bound;
    })
    | inr (oldest, rest, e) ↦ ground (
      arith,
      length-append rest (sample ∷ []),
      length-append s.current (sample ∷ []),
      length-append s.baseline (oldest ∷ []),
      length-last_n window (s.baseline ++ oldest ∷ []),
    )
  ]

  pub promote-IsBounded : (s : Stream h) → IsBounded s → IsBounded (promote h s)
  unfolding promote
  promote-IsBounded s b = ground arith

  pub follow-IsBounded :
      (id : Text) (incidents : List (Incident h)) (s : Stream h) (event : Event h)
      (found : Dict (Evidence h)) {r : List (Incident h) × Stream h}
      → IsBounded s
      → follow h id incidents s event found ≡ ok r
      → IsBounded r.1
  unfolding follow
  follow-IsBounded id incidents s event found b e = ground (arith, length-last_n window s.current)

  pub evaluate-IsBounded :
      (stream_id : Text) (incidents : List (Incident h)) (s : Stream h) (event : Event h)
      {r : List (Incident h) × Stream h}
      → IsBounded s
      → evaluate h stream_id incidents s event ≡ ok r
      → IsBounded r.1
  unfolding evaluate open_incident
  evaluate-IsBounded stream_id incidents s event b e = elim (Option-cases s.active_incident) [
    | inl idle ↦ ground arith
    | inr (id, busy) ↦
        follow-IsBounded id incidents s event (signals h s) b (rw (busy, evaluate) at e)
  ]

  pub add_version-IsBounded :
      (s : Stream h) (version_id : Text) (versions : Dict Text) {t : Stream h}
      → IsBounded s
      → add_version h s version_id versions ≡ ok t
      → IsBounded t
  unfolding add_version
  add_version-IsBounded s version_id versions b e =
      let trimmed = trim_versions s in
      let b' = trim_versions-IsBounded s b in
      elim (Option-cases (lookup version_id trimmed.versions)) [
        | inl new ↦ ground (arith, b', length-insert_new version_id versions trimmed.versions new)
        | inr (old, found) ↦
            ground (arith, b', length-insert_old version_id versions old trimmed.versions found)
      ]

  pub update_stream-IsBounded :
      (stream_id : Text) (incidents : List (Incident h)) (s : Stream h) (event : Event h)
      {r : List (Incident h) × Stream h}
      → IsBounded s
      → update_stream h stream_id incidents s event ≡ ok r
      → IsBounded r.1
  update_stream-IsBounded stream_id incidents s event {r} b e =
      let u = update_stream-eq-ok stream_id incidents s event r e in
      let pushed =
        push-IsBounded u.versioned (sample_of h event (version_hash h (version_metadata h event)))
          (add_version-IsBounded s _ _ b u.added) in
      let evaluated =
        evaluate-IsBounded stream_id incidents (with_sample u.versioned event) event
          (record {
            baseline_bound = pushed.baseline_bound;
            current_bound = pushed.current_bound;
            versions_bound = pushed.versions_bound;
          })
          u.ran in
      rw u.result (promote-IsBounded u.evaluated.1 evaluated)

  pub stream_for-IsBounded :
      (streams : Dict (Stream h)) (stream_id : Text) (event : Event h) {s : Stream h}
      → All (λ e. IsBounded e.1) streams
      → stream_for h streams stream_id event ≡ ok s
      → IsBounded s
  unfolding stream_for
  stream_for-IsBounded streams stream_id event {s} b e =
      elim (Option-cases (lookup stream_id streams)) [
        | inl new ↦ ground arith
        | inr (old, found) ↦ ground (arith, All-lookup IsBounded stream_id old streams b found)
      ]
