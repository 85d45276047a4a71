-- ===== src/Detection/Rows.antt =====
-- Predicates of all rows of a stream's windows go with the rows wherever the detector moves them.
use reliamesh.Prelude.{
  ℕ, ◌-◌, inl, inr, List, [], ◌∷◌, ◌++◌, length, last_n, arith, All, All-append, All-take, All-drop,
  List-cases,
}
use reliamesh.Host.{Host}
use reliamesh.Detection.State.{Sample, Stream, window}
use reliamesh.Detection.Prune.{rebuild}
use reliamesh.Detection.Process.{push, promote}
use reliamesh.Detection.Shapes.{EvaluatedTo, kept, reset}

module _ {h : Host} (P : Sample h → Type 0) where
  pub record Rows (s : Stream h) : Type 0 where
    pub in_baseline : All P s.baseline
    pub in_current : All P s.current

  All-last_n : (n : ℕ) (xs : List (Sample h)) → All P xs → All P (last_n n xs)
  unfolding last_n
  All-last_n n xs p = All-drop P (length xs - n) xs p

  pub EvaluatedTo-Rows : {s t : Stream h} → EvaluatedTo s t → Rows s → Rows t
  EvaluatedTo-Rows {s} (kept active e) r =
      rw e (record { in_baseline = r.in_baseline; in_current = r.in_current })
  EvaluatedTo-Rows {s} (reset e) r =
      rw e (record { in_baseline = All-last_n window s.current r.in_current; in_current = tt })

  pub promote-Rows : (s : Stream h) → Rows s → Rows (promote h s)
  unfolding promote
  promote-Rows s r = ground arith

  pub push-Rows : (s : Stream h) (sample : Sample h) → P sample → Rows s → Rows (push h s sample)
  unfolding push
  push-Rows s sample p r = elim (List-cases s.current) [
    | inl e ↦ rw e (record { in_baseline = r.in_baseline; in_current = (p, tt) })
    | inr (oldest, rest, e) ↦
        let q : P oldest × All P rest = rw e at r.in_current in
        ground (
          arith,
          All-append P rest (sample ∷ []) q.1 (p, tt),
          All-append P s.current (sample ∷ []) r.in_current (p, tt),
          All-last_n window (s.baseline ++ oldest ∷ [])
              (All-append P s.baseline (oldest ∷ []) r.in_baseline (q.0, tt)),
        )
  ]

  pub rebuild-Rows : (s : Stream h) (rows : List (Sample h)) → All P rows → Rows (rebuild s rows)
  unfolding rebuild
  rebuild-Rows s rows p = ground (arith, All-take P window rows p, All-drop P window rows p)
