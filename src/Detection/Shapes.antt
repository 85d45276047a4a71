-- ===== src/Detection/Shapes.antt =====
-- What `_evaluate`, `_prune` and the row that is pushed do to one stream, whatever the statistics say.
use reliamesh.Prelude.{
  ◌+◌, ◌<◌, ◌≡◌, refl, ◌⊎◌, inl, inr, Option, none, some, List, [], ◌++◌, Text, length, last_n,
  keep, ltb, arith, ok, Option-cases, Bool-cases,
}
use reliamesh.Prelude.Dict.{Dict}
use reliamesh.Host.{Host, Instant}
use reliamesh.Protocol.Event.{Event}
use reliamesh.Detection.State.{Sample, Stream, Incident, Evidence, window, retention}
use reliamesh.Detection.Signals.{signals}
use reliamesh.Detection.Prune.{is_fresh, trim_versions, rebuild, live_incident, prune_stream}
use reliamesh.Detection.Process.{follow, open_incident, evaluate}

module _ {h : Host} where
  -- After `_evaluate` only the active incident differs, or the incident was resolved: then the
  -- observation window has become the baseline.
  pub data EvaluatedTo (s t : Stream h) : Type 0 where
    kept : (active : Option Text) → t ≡ record s { active_incident = active } → EvaluatedTo s t
    reset :
        t ≡ record s { active_incident = none; baseline = last_n window s.current; current = [] }
        → EvaluatedTo s t

  same_stream : (s : Stream h) → s ≡ record s { active_incident = s.active_incident }
  same_stream s = refl

  follow-EvaluatedTo :
      (id : Text) (incidents : List (Incident h)) (s : Stream h) (event : Event h)
      (found : Dict (Evidence h)) (r : List (Incident h) × Stream h)
      → follow h id incidents s event found ≡ ok r
      → (r.1 ≡ s)
        ⊎ (r.1
            ≡ record s { active_incident = none; baseline = last_n window s.current; current = [] })
  unfolding follow
  follow-EvaluatedTo id incidents s event found r e = ground arith

  pub evaluate-EvaluatedTo :
      (stream_id : Text) (incidents : List (Incident h)) (s : Stream h) (event : Event h)
      (r : List (Incident h) × Stream h)
      → evaluate h stream_id incidents s event ≡ ok r
      → EvaluatedTo s r.1
  unfolding evaluate open_incident
  evaluate-EvaluatedTo stream_id incidents s event r e = elim (Option-cases s.active_incident) [
    | inl idle ↦ kept r.1.active_incident (ground arith)
    | inr (id, busy) ↦
        elim (follow-EvaluatedTo id incidents s event (signals h s) r (rw (busy, evaluate) at e)) [
          | inl same ↦ kept s.active_incident same
          | inr new ↦ reset new
        ]
  ]

  -- the rows of a window that have not expired
  abbrev pub fresh_rows : Instant → List (Sample h) → List (Sample h)
  fresh_rows now = keep (λ (row : Sample h). is_fresh now row.ts)

  -- After `_prune` a stream has its fresh rows, in its windows or rebuilt, and the labels they use.
  pub data PrunedTo (now : Instant) (s t : Stream h) : Type 0 where
    rebuilt :
        t
          ≡ trim_versions (
              rebuild
                (record s { active_incident = none })
                (fresh_rows now s.baseline ++ fresh_rows now s.current))
        → PrunedTo now s t
    filtered :
        (active : Option Text)
        → t
          ≡ trim_versions (record s {
            baseline = fresh_rows now s.baseline;
            current = fresh_rows now s.current;
            active_incident = active;
          })
        → PrunedTo now s t

  pub prune_stream-PrunedTo :
      (now : Instant) (incidents : List (Incident h)) (s t : Stream h)
      → (prune_stream now incidents s).0 ≡ some t
      → (now < s.last_timestamp + retention) × PrunedTo now s t
  unfolding prune_stream
  prune_stream-PrunedTo now incidents s t e =
      elim (Bool-cases (ltb (length (fresh_rows now s.baseline)) (length s.baseline))) [
        | inl shrunk ↦ (ground arith, rebuilt (ground arith))
        | inr whole ↦
            (ground arith, filtered (live_incident incidents s.active_incident) (ground arith))
      ]
