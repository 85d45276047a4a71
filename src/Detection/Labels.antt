-- ===== src/Detection/Labels.antt =====
-- Every row of a window names a version that the stream still describes.
use reliamesh.Prelude.{
  ◌≡◌, refl, true, some, List, [], ◌∷◌, ◌++◌, map, Text, keep, arith, All, All-append, All-map,
  All-both, All-keep, ok, ap, sym, ◌∙◌,
}
use mathlib.Core.Path.{subst}
use reliamesh.Prelude.Dict.{Dict, lookup, insert, contains, lookup-insert}
use reliamesh.Host.{Host, Instant}
use reliamesh.Protocol.Event.{Event, version_metadata}
use reliamesh.Detection.State.{Sample, Stream, Incident}
use reliamesh.Detection.Prune.{mem_text, trim_versions, rebuild, prune_stream}
use reliamesh.Detection.Process.{push, promote, add_version, update_stream, sample_of, version_hash}
use reliamesh.Detection.Steps.{update_stream-eq-ok}
use reliamesh.Detection.Shapes.{
  EvaluatedTo, kept, reset, evaluate-EvaluatedTo, PrunedTo, rebuilt, filtered, fresh_rows,
  prune_stream-PrunedTo,
}
use reliamesh.Detection.Rows.{Rows, EvaluatedTo-Rows, promote-Rows, push-Rows, rebuild-Rows}

lookup-keep {ℓ} :
    {V : Type ℓ} (used : List Text) (k : Text) (d : Dict V)
    → mem_text k used ≡ true
    → lookup k (keep (λ e. mem_text e.0 used) d) ≡ lookup k d
unfolding lookup
lookup-keep used k [] m = refl
lookup-keep used k (e ∷ d) m = ground (arith, lookup-keep used k d m)

module _ {h : Host} where
  -- the label of the row is among the labels
  abbrev pub IsKnown : Dict (Dict Text) → Sample h → Type 0
  IsKnown versions row = contains row.version versions ≡ true

  abbrev pub IsLabelled : Stream h → Type 0
  IsLabelled s = Rows (IsKnown s.versions) s

  abbrev names : List (Sample h) → List Text
  names = map (λ (row : Sample h). row.version)

  mem-names-left :
      (k : Text) (xs ys : List (Sample h))
      → mem_text k (names xs) ≡ true
      → mem_text k (names (xs ++ ys)) ≡ true
  unfolding mem_text
  mem-names-left k [] ys m = cc
  mem-names-left k (x ∷ xs) ys m = ground (arith, mem-names-left k xs ys)

  mem-names-right :
      (k : Text) (xs ys : List (Sample h))
      → mem_text k (names ys) ≡ true
      → mem_text k (names (xs ++ ys)) ≡ true
  unfolding mem_text
  mem-names-right k [] ys m = m
  mem-names-right k (x ∷ xs) ys m = ground (arith, mem-names-right k xs ys m)

  names-All : (xs : List (Sample h)) → All (λ row. mem_text row.version (names xs) ≡ true) xs
  unfolding mem_text
  names-All [] = tt
  names-All (x ∷ xs) = (
    ground arith,
    All-map _ (λ row. mem_text row.version (names (x ∷ xs)) ≡ true) (λ row m. ground arith) xs
        (names-All xs),
  )

  -- `_trim_versions` drops no label that a row names.
  pub trim_versions-IsLabelled : (s : Stream h) → IsLabelled s → IsLabelled (trim_versions s)
  unfolding trim_versions
  trim_versions-IsLabelled s r = record {
    in_baseline = All-map _ _ found s.baseline (
        All-both _ _ s.baseline r.in_baseline (
          All-map _ (λ row. mem_text row.version used ≡ true)
            (λ row m. mem-names-left row.version s.baseline s.current m) s.baseline
            (names-All s.baseline)));
    in_current = All-map _ _ found s.current (
        All-both _ _ s.current r.in_current (
          All-map _ (λ row. mem_text row.version used ≡ true)
            (λ row m. mem-names-right row.version s.baseline s.current m) s.current
            (names-All s.current)));
  }
    where
      used : List Text
      used = names (s.baseline ++ s.current)

      found :
          (row : Sample h)
          → IsKnown s.versions row × (mem_text row.version used ≡ true)
          → IsKnown (trim_versions s).versions row
      found row k = ground (arith, lookup-keep used row.version s.versions k.1)

  -- The labels stay where only rows move.
  rebuild-versions :
      (s : Stream h) (rows : List (Sample h)) → (rebuild s rows).versions ≡ s.versions
  unfolding rebuild
  rebuild-versions s rows = ground arith

  push-versions : (s : Stream h) (sample : Sample h) → (push h s sample).versions ≡ s.versions
  unfolding push
  push-versions s sample = ground arith

  promote-versions : (s : Stream h) → (promote h s).versions ≡ s.versions
  unfolding promote
  promote-versions s = ground arith

  EvaluatedTo-versions : {s t : Stream h} → EvaluatedTo s t → t.versions ≡ s.versions
  EvaluatedTo-versions (kept active e) = ap (λ (u : Stream h). u.versions) e
  EvaluatedTo-versions (reset e) = ap (λ (u : Stream h). u.versions) e

  relabel :
      {versions : Dict (Dict Text)} {t : Stream h}
      → Rows (IsKnown versions) t
      → t.versions ≡ versions
      → IsLabelled t
  relabel {versions} {t} r e = subst (λ v. Rows (IsKnown v) t) (sym e) r

  pub prune_stream-IsLabelled :
      (now : Instant) (incidents : List (Incident h)) (s t : Stream h)
      → IsLabelled s
      → (prune_stream now incidents s).0 ≡ some t
      → IsLabelled t
  prune_stream-IsLabelled now incidents s t r e =
      pruned (prune_stream-PrunedTo now incidents s t e).1
    where
      baseline : All (IsKnown s.versions) (fresh_rows now s.baseline)
      baseline = All-keep (IsKnown s.versions) _ s.baseline r.in_baseline

      current : All (IsKnown s.versions) (fresh_rows now s.current)
      current = All-keep (IsKnown s.versions) _ s.current r.in_current

      pruned : PrunedTo now s t → IsLabelled t
      pruned (rebuilt p) = rw p (
          trim_versions-IsLabelled _ (
            relabel (rebuild-Rows (IsKnown s.versions) _ _ (All-append _ _ _ baseline current))
              (rebuild-versions _ _)))
      pruned (filtered active p) =
          rw p
            (trim_versions-IsLabelled _ (record { in_baseline = baseline; in_current = current }))

  pub add_version-IsLabelled :
      (s : Stream h) (version_id : Text) (versions : Dict Text) (t : Stream h)
      → IsLabelled s
      → add_version h s version_id versions ≡ ok t
      → IsLabelled t × (contains version_id t.versions ≡ true)
  unfolding add_version
  add_version-IsLabelled s version_id versions t r e = rw labelled (
    record {
      in_baseline = All-map _ _ widen trimmed.baseline trimmed_rows.in_baseline;
      in_current = All-map _ _ widen trimmed.current trimmed_rows.in_current;
    },
    ground (arith, lookup-insert version_id version_id versions trimmed.versions),
  )
    where
      trimmed : Stream h
      trimmed = trim_versions s

      trimmed_rows : IsLabelled trimmed
      trimmed_rows = trim_versions-IsLabelled s r

      labelled : t ≡ record trimmed { versions = insert version_id versions trimmed.versions }
      labelled = ground arith

      widen :
          (row : Sample h)
          → IsKnown trimmed.versions row
          → IsKnown (insert version_id versions trimmed.versions) row
      widen row k = ground (arith, lookup-insert row.version version_id versions trimmed.versions)

  -- An event that is put on a stream brings its own label, and takes none that is in use.
  pub update_stream-IsLabelled :
      (stream_id : Text) (incidents : List (Incident h)) (s : Stream h) (event : Event h)
      (r : List (Incident h) × Stream h)
      → IsLabelled s
      → update_stream h stream_id incidents s event ≡ ok r
      → IsLabelled r.1
  unfolding sample_of
  update_stream-IsLabelled stream_id incidents s event r l e =
      let version_id = version_hash h (version_metadata h event) in
      let sample = sample_of h event version_id in
      let u = update_stream-eq-ok stream_id incidents s event r e in
      let (known, own) = add_version-IsLabelled s _ _ u.versioned l u.added in
      let pushed = push-Rows (IsKnown u.versioned.versions) u.versioned sample own known in
      let went = evaluate-EvaluatedTo stream_id incidents _ event u.evaluated u.ran in
      let evaluated =
        EvaluatedTo-Rows (IsKnown u.versioned.versions) went
          (record { in_baseline = pushed.in_baseline; in_current = pushed.in_current }) in
      rw u.result (
        relabel (promote-Rows (IsKnown u.versioned.versions) u.evaluated.1 evaluated) (
          promote-versions u.evaluated.1
          ∙ EvaluatedTo-versions went
          ∙ push-versions u.versioned sample))
