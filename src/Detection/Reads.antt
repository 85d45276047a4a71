-- ===== src/Detection/Reads.antt =====
-- What a tenant reads: the summary of a state that the batches have left never fails.
use reliamesh.Prelude.{
  ℕ, ◌≡◌, refl, Bool, true, false, Option, some, List, [], ◌∷◌, Text, text_le, ◌==◌, if◌then◌else◌,
  Result, ok, err, ◌>>=◌, All, All-map, arith, inl, inr, Option-cases,
}
use reliamesh.Prelude.Dict.{Dict, lookup}
use reliamesh.Host.{Host, Instant}
use reliamesh.Protocol.Event.{FailureType}
use reliamesh.Detection.State.{
  Sample, Stream, State, Error, aware, naive, aware_now_required, epoch,
}
use reliamesh.Detection.Prune.{prune}
use reliamesh.Detection.Batch.{sort_by, insert_by}
use reliamesh.Detection.Labels.{IsKnown, IsLabelled}
use reliamesh.Detection.Invariant.{IsSound, IsValid, prune-IsValid}
use reliamesh.Detection.Summary.{
  View, tally, row_fingerprint, count_failures, fingerprints, stream_view, stream_views, summarize,
}

All-insert_by {ℓ κ} :
    {A : Type ℓ} (P : A → Type κ) (le : A → A → Bool) (x : A) (xs : List A)
    → P x
    → All P xs
    → All P (insert_by le x xs)
unfolding insert_by
All-insert_by P le x [] p h = (p, tt)
All-insert_by P le x (y ∷ ys) p h = ground (arith, All-insert_by P le x ys p h.1)

pub All-sort_by {ℓ κ} :
    {A : Type ℓ} (P : A → Type κ) (le : A → A → Bool) (xs : List A)
    → All P xs
    → All P (sort_by le xs)
unfolding sort_by
All-sort_by P le [] h = tt
All-sort_by P le (x ∷ xs) h = All-insert_by P le x (sort_by le xs) h.0 (All-sort_by P le xs h.1)

-- The call returns.
abbrev pub Returns : {A : Type 0} → Result Error A → Type 0
Returns {A} r = (a : A) × (r ≡ ok a)

Returns-bind :
    {A B : Type 0} (m : Result Error A) (f : A → Result Error B)
    → Returns m
    → ((a : A) → Returns (f a))
    → Returns (m >>= f)
Returns-bind (ok a) f r g = g a
Returns-bind (err e) f r g = cc

Returns-if :
    {A : Type 0} (b : Bool) {x y : Result Error A}
    → Returns x
    → Returns y
    → Returns (if b then x else y)
Returns-if true p q = p
Returns-if false p q = q

module _ (h : Host) where
  count_failures-total :
      (stream : Stream h) (rows : List (Sample h)) (counts : Dict (ℕ × Option FailureType))
      → All (IsKnown stream.versions) rows
      → Returns (count_failures h stream rows counts)
  unfolding count_failures
  count_failures-total stream [] counts a = (counts, refl)
  count_failures-total stream (row ∷ rows) counts a =
      elim (Option-cases (lookup row.version stream.versions)) [
        | inl absent ↦ ground (arith, absent, a.0)
        | inr (metadata, found) ↦ rw found (
            Returns-if (row.failed == 0) (count_failures-total stream rows counts a.1) (
              count_failures-total stream rows
                (tally (row_fingerprint h stream row metadata) row.failure counts) a.1))
      ]

  stream_view-total : (e : Text × Stream h) → IsLabelled e.1 → Returns (stream_view h e)
  unfolding stream_view fingerprints
  stream_view-total e a =
      Returns-bind (fingerprints h e.1) _
        (Returns-bind (count_failures h e.1 e.1.current []) _
          (count_failures-total e.1 e.1.current [] a.in_current) (λ d. (_, refl)))
        (λ groups. (_, refl))

  stream_views-total :
      (streams : Dict (Stream h))
      → All (λ e. IsLabelled e.1) streams
      → Returns (stream_views h streams)
  unfolding stream_views
  stream_views-total [] a = ([], refl)
  stream_views-total (e ∷ streams) a =
      Returns-bind (stream_view h e) _ (stream_view-total e a.0) (λ v.
        Returns-bind (stream_views h streams) _ (stream_views-total streams a.1) (λ vs. (_, refl)))

  -- The summary of a valid state returns at an aware time, no row naming a version whose metadata is
  -- missing, and raises `aware_now_required` at a naive one.
  pub summarize-total :
      (state : State h) (now : Instant)
      → IsValid state
      → ((v : View h) × (summarize h (some state) (aware now) ≡ ok v))
        × (summarize h (some state) naive ≡ err aware_now_required)
  unfolding summarize epoch
  summarize-total state now valid =
      let view = prune (some state) now in
      let returned : Returns (summarize h (some state) (aware now)) =
        Returns-bind
          (stream_views h (sort_by (λ (a b : Text × Stream h). text_le a.0 b.0) view.streams)) _
          (stream_views-total _ (
            All-sort_by (λ (e : Text × Stream h). IsLabelled e.1) _ view.streams
              (All-map (λ (e : Text × Stream h). IsSound e.1)
                (λ (e : Text × Stream h). IsLabelled e.1) (λ e s. s.labelled) view.streams
                (prune-IsValid state now valid).streams_sound)))
          (λ views. (_, refl)) in
      (returned, refl)
