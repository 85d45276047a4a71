-- ===== src/Detection/Order.antt =====
-- The rows of a stream are chronological: the baseline, then the observation window, then the
-- stream's last timestamp.
use reliamesh.Prelude.{
  take-append-drop, ℕ, zero, suc, ◌≤◌, ◌≡◌, refl, inl, inr, Bool, none, some, List, [], ◌∷◌, ◌++◌,
  Text, length, drop, last_n, keep, leb, ◌==◌, arith, ok, List-cases, ◌&&◌, not, Bool-cases,
}
use mathlib.Core.List.{append-nil, append_assoc}
use reliamesh.Prelude.Dict.{Dict}
use reliamesh.Host.{Host, Instant}
use reliamesh.Protocol.Event.{Event, version_metadata}
use reliamesh.Detection.State.{Sample, Stream, Incident, window}
use reliamesh.Detection.Prune.{trim_versions, rebuild, prune_stream}
use reliamesh.Detection.Process.{
  push, promote, add_version, update_stream, sample_of, version_hash, is_none, is_empty,
}
use reliamesh.Detection.Steps.{update_stream-eq-ok}
use reliamesh.Detection.Shapes.{
  EvaluatedTo, kept, reset, evaluate-EvaluatedTo, PrunedTo, rebuilt, filtered, fresh_rows,
  prune_stream-PrunedTo,
}

module _ {h : Host} where
  -- The rows do not go back in time, start at `lo` or later and end at `hi` or earlier.
  abbrev pub Between : Instant → Instant → List (Sample h) → Type 0
  Between lo hi [] = lo ≤ hi
  Between lo hi (row ∷ rows) = (lo ≤ row.ts) × Between row.ts hi rows

  Between-le : (lo hi : Instant) (rows : List (Sample h)) → Between lo hi rows → lo ≤ hi
  Between-le lo hi [] b = b
  Between-le lo hi (row ∷ rows) b = omega (arith, Between-le row.ts hi rows b.1)

  Between-from :
      (lo lo' hi : Instant) (rows : List (Sample h))
      → lo ≤ lo'
      → Between lo' hi rows
      → Between lo hi rows
  Between-from lo lo' hi [] l b = omega arith
  Between-from lo lo' hi (row ∷ rows) l b = (omega arith, b.1)

  Between-keep :
      (p : Sample h → Bool) (lo hi : Instant) (rows : List (Sample h))
      → Between lo hi rows
      → Between lo hi (keep p rows)
  Between-keep p lo hi [] b = b
  Between-keep p lo hi (row ∷ rows) b = elim (Bool-cases (p row)) [
    | inl fresh ↦ rw fresh (b.0, Between-keep p row.ts hi rows b.1)
    | inr gone ↦
        rw gone (Between-from lo row.ts hi (keep p rows) b.0 (Between-keep p row.ts hi rows b.1))
  ]

  keep-append :
      (p : Sample h → Bool) (xs ys : List (Sample h)) → keep p (xs ++ ys) ≡ keep p xs ++ keep p ys
  keep-append p [] ys = refl
  keep-append p (x ∷ xs) ys = ground (arith, keep-append p xs ys)

  -- Rows can go from the front of either part.
  Between-drop :
      (n : ℕ) (lo hi : Instant) (xs ys : List (Sample h))
      → Between lo hi (xs ++ ys)
      → Between lo hi (drop n xs ++ ys)
  unfolding drop
  Between-drop zero lo hi xs ys b = b
  Between-drop (suc n) lo hi [] ys b = b
  Between-drop (suc n) lo hi (x ∷ xs) ys b =
      Between-drop n lo hi xs ys (Between-from lo x.ts hi (xs ++ ys) b.0 b.1)

  Between-remove :
      (lo hi : Instant) (xs : List (Sample h)) (y : Sample h) (ys : List (Sample h))
      → Between lo hi (xs ++ y ∷ ys)
      → Between lo hi (xs ++ ys)
  Between-remove lo hi [] y ys b = Between-from lo y.ts hi ys b.0 b.1
  Between-remove lo hi (x ∷ xs) y ys b = (b.0, Between-remove x.ts hi xs y ys b.1)

  Between-suffix :
      (lo hi : Instant) (xs ys : List (Sample h)) → Between lo hi (xs ++ ys) → Between lo hi ys
  Between-suffix lo hi [] ys b = b
  Between-suffix lo hi (x ∷ xs) ys b =
      Between-suffix lo hi xs ys (Between-from lo x.ts hi (xs ++ ys) b.0 b.1)

  Between-snoc :
      (lo hi : Instant) (rows : List (Sample h)) (row : Sample h)
      → hi ≤ row.ts
      → Between lo hi rows
      → Between lo row.ts (rows ++ row ∷ [])
  Between-snoc lo hi [] row l b = omega arith
  Between-snoc lo hi (x ∷ rows) row l b = (b.0, Between-snoc x.ts hi rows row l b.1)

  pub record IsOrdered (s : Stream h) : Type 0 where
    pub chronological : Between 0 s.last_timestamp (s.baseline ++ s.current)

  rebuild-IsOrdered :
      (s : Stream h) (rows : List (Sample h))
      → Between 0 s.last_timestamp rows
      → IsOrdered (rebuild s rows)
  unfolding rebuild
  rebuild-IsOrdered s rows b = elim (Bool-cases (leb window (length rows))) [
    | inl full ↦ rw full (record { chronological = rw (take-append-drop window rows) b })
    | inr short ↦ rw short (record { chronological = b })
  ]

  pub prune_stream-IsOrdered :
      (now : Instant) (incidents : List (Incident h)) (s t : Stream h)
      → IsOrdered s
      → (prune_stream now incidents s).0 ≡ some t
      → IsOrdered t
  unfolding trim_versions
  prune_stream-IsOrdered now incidents s t o e =
      pruned (prune_stream-PrunedTo now incidents s t e).1
    where
      rows : Between 0 s.last_timestamp (fresh_rows now s.baseline ++ fresh_rows now s.current)
      rows = rw (← keep-append) (Between-keep _ 0 s.last_timestamp _ o.chronological)

      pruned : PrunedTo now s t → IsOrdered t
      pruned (rebuilt p) =
          let r = rebuild-IsOrdered (record s { active_incident = none }) _ rows in
          rw p (record { chronological = r.chronological })
      pruned (filtered active p) = rw p (record { chronological = rows })

  data PushedTo (s : Stream h) (sample : Sample h) (t : Stream h) : Type 0 where
    added : t ≡ record s { current = s.current ++ sample ∷ [] } → PushedTo s sample t
    dropped :
        (oldest : Sample h) (rest : List (Sample h))
        → s.current ≡ oldest ∷ rest
        → t ≡ record s { current = rest ++ sample ∷ [] }
        → PushedTo s sample t
    moved :
        (oldest : Sample h) (rest : List (Sample h))
        → s.current ≡ oldest ∷ rest
        → t ≡ record s {
          baseline = last_n window (s.baseline ++ oldest ∷ []);
          current = rest ++ sample ∷ [];
        }
        → PushedTo s sample t

  push-PushedTo : (s : Stream h) (sample : Sample h) → PushedTo s sample (push h s sample)
  unfolding push
  push-PushedTo s sample = elim (List-cases s.current) [
    | inl e ↦ added (rw e refl)
    | inr (oldest, rest, e) ↦ elim (Bool-cases (length s.current == window)) [
      | inr short ↦ added (ground arith)
      | inl full ↦ elim (Bool-cases (is_none s.active_incident && not (is_empty s.baseline))) [
        | inl frozen ↦ moved oldest rest e (ground arith)
        | inr rolling ↦ dropped oldest rest e (ground arith)
      ]
    ]
  ]

  PushedTo-Between :
      (s : Stream h) (sample : Sample h) {t : Stream h}
      → PushedTo s sample t
      → IsOrdered s
      → s.last_timestamp ≤ sample.ts
      → Between 0 sample.ts (t.baseline ++ t.current)
  unfolding last_n
  PushedTo-Between s sample {t} p o l = shape p
    where
      all : Between 0 sample.ts (s.baseline ++ (s.current ++ sample ∷ []))
      all =
          rw (← append_assoc)
            (Between-snoc 0 s.last_timestamp (s.baseline ++ s.current) sample l o.chronological)

      shape : PushedTo s sample t → Between 0 sample.ts (t.baseline ++ t.current)
      shape (added e) = rw e all
      shape (dropped oldest rest c e) =
          rw e (Between-remove 0 sample.ts s.baseline oldest (rest ++ sample ∷ []) (rw c at all))
      shape (moved oldest rest c e) = rw e (
          Between-drop _ 0 sample.ts (s.baseline ++ oldest ∷ []) (rest ++ sample ∷ [])
            (rw append_assoc (rw c at all)))

  EvaluatedTo-IsOrdered : {s t : Stream h} → EvaluatedTo s t → IsOrdered s → IsOrdered t
  unfolding last_n
  EvaluatedTo-IsOrdered {s} (kept active e) o = rw e (record { chronological = o.chronological })
  EvaluatedTo-IsOrdered {s} (reset e) o = rw e (record {
    chronological =
        Between-drop _ 0 s.last_timestamp s.current []
          (rw append-nil (Between-suffix 0 s.last_timestamp s.baseline s.current o.chronological));
  })

  promote-IsOrdered : (s : Stream h) → IsOrdered s → IsOrdered (promote h s)
  unfolding promote
  promote-IsOrdered s o = ground (arith, append-nil s.current)

  add_version-IsOrdered :
      (s : Stream h) (version_id : Text) (versions : Dict Text) (t : Stream h)
      → IsOrdered s
      → add_version h s version_id versions ≡ ok t
      → IsOrdered t × (t.last_timestamp ≡ s.last_timestamp)
  unfolding add_version trim_versions
  add_version-IsOrdered s version_id versions t o e = ground arith

  -- An event that is put on a stream is its latest row, or was moved with all rows to the baseline.
  pub update_stream-IsOrdered :
      (stream_id : Text) (incidents : List (Incident h)) (s : Stream h) (event : Event h)
      (r : List (Incident h) × Stream h)
      → IsOrdered s
      → update_stream h stream_id incidents s event ≡ ok r
      → IsOrdered r.1
  unfolding sample_of
  update_stream-IsOrdered stream_id incidents s event r o e =
      let version_id = version_hash h (version_metadata h event) in
      let u = update_stream-eq-ok stream_id incidents s event r e in
      let (o', last) = add_version-IsOrdered s _ _ u.versioned o u.added in
      let pushed =
        PushedTo-Between u.versioned (sample_of h event version_id) (push-PushedTo _ _) o'
          (omega (arith, u.in_order, last)) in
      rw u.result (
        promote-IsOrdered u.evaluated.1 (
          EvaluatedTo-IsOrdered (evaluate-EvaluatedTo stream_id incidents _ event u.evaluated u.ran)
            (record { chronological = pushed })))
