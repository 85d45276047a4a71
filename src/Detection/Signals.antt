-- ===== src/Detection/Signals.antt =====
-- `_metric_signal`, `_signals` and `_recovered` of src/reliamesh/detection.py.
use reliamesh.Prelude.{
  ℕ, ◌+◌, ◌-◌, ◌*◌, ◌/◌, min, Bool, true, false, Option, none, some, List, [], ◌∷◌, ◌++◌, Text,
  text, ltb, leb, if◌then◌else◌, length, get_elem?, ◌&&◌, ◌||◌, Result, ok, err, ◌>>=◌,
}
use reliamesh.Prelude.Dict.{Dict, contains}
use reliamesh.Host.{Host, float_max, float_le}
use reliamesh.Detection.State.{
  Sample, Stream, Stats, Evidence, high_failure, regression, metric, Incident, Error, type_error,
  window,
}
use reliamesh.Detection.Stats.{
  known, wilson_interval, sorted, median, latency_of, tokens_of, retries_of, stats,
}

abbrev pub high_failure_rate : Text
high_failure_rate = text "high_failure_rate"

abbrev pub failure_rate_regression : Text
failure_rate_regression = text "failure_rate_regression"

abbrev pub latency_degradation : Text
latency_degradation = text "latency_degradation"

abbrev pub token_consumption_degradation : Text
token_consumption_degradation = text "token_consumption_degradation"

abbrev pub retry_degradation : Text
retry_degradation = text "retry_degradation"

-- A number that is not `None`, or the error of computing with `None`.
unfoldable pub number {ℓ} : {A : Type ℓ} → Option A → (A → Result Error Bool) → Result Error Bool
number none f = err type_error
number (some a) f = f a

module _ (h : Host) where
  open h use {Float, of_ℕ, decimal, add, sub, mul, lt}

  -- `sum(value > threshold for value in values)`
  unfoldable pub elevated : Float → List Float → ℕ
  elevated threshold [] = 0
  elevated threshold (value ∷ values) =
      (if lt threshold value then 1 else 0) + elevated threshold values

  -- `math.ceil(0.95 * n)`, of the at most fifty values of a window
  abbrev pub rank_95 : ℕ → ℕ
  rank_95 n = (95 * n + 99) / 100

  unfoldable pub metric_signal :
      List (Sample h) → List (Sample h) → (Sample h → Option Float) → Float → Option (Evidence h)
  metric_signal baseline current index minimum_delta =
      let before = known index baseline in
      let after = known index current in
      if ltb (min (length before) (length after)) 40 then none else elim (median h before) [
        | none ↦ none
        | some base_median ↦ elim (median h after) [
          | none ↦ none
          | some current_median ↦ elim (get_elem? (sorted h before) (rank_95 (length before) - 1)) [
            | none ↦ none
            | some p95 ↦
                let threshold =
                  float_max h (float_max h p95 (mul base_median (decimal 15 1)))
                    (add base_median minimum_delta) in
                let base_interval = wilson_interval h (elevated threshold before) (length before) in
                let current_interval =
                  wilson_interval h (elevated threshold after) (length after) in
                if lt threshold current_median && lt base_interval.1 current_interval.0
                then some
                    (metric threshold base_median current_median base_interval current_interval)
                else none
          ]
        ]
      ]

  unfoldable pub signal_of : Text → Option (Evidence h) → Dict (Evidence h)
  signal_of kind none = []
  signal_of kind (some evidence) = (kind, evidence) ∷ []

  -- the two rates are `None` only for empty windows
  unfoldable pub regression_signal : Stats h → Stats h → Dict (Evidence h)
  regression_signal base observed = elim base.failure_rate [
    | none ↦ []
    | some base_rate ↦ elim observed.failure_rate [
      | none ↦ []
      | some rate ↦
          if float_le h (decimal 15 2) (sub rate base_rate)
            && lt base.failure_rate_interval_95.1 observed.failure_rate_interval_95.0
          then (
            failure_rate_regression,
            regression base_rate rate base.failure_rate_interval_95
                observed.failure_rate_interval_95,
          )
            ∷ []
          else []
    ]
  ]

  unfoldable pub signals : Stream h → Dict (Evidence h)
  signals stream =
      let base = stats h stream.baseline in
      let observed = stats h stream.current in
      let high =
        if leb 25 (length stream.current) && lt (decimal 5 1) observed.failure_rate_interval_95.0
        then (high_failure_rate, high_failure observed.failure_rate_interval_95) ∷ []
        else [] in
      let evidence = λ (index : Sample h → Option Float) (minimum : ℕ).
        metric_signal stream.baseline stream.current index (of_ℕ minimum) in
      if ltb (length stream.baseline) window || ltb (length stream.current) window
      then high
      else high
        ++ (regression_signal base observed
            ++ (signal_of latency_degradation (evidence (latency_of h) 50)
                ++ (signal_of token_consumption_degradation (evidence (tokens_of h) 100)
                    ++ signal_of retry_degradation (evidence (retries_of h) 2))))

  -- one round of the last loop of `_recovered`: does the metric still keep the incident open?
  unfoldable pub still_degraded : ℕ → Option Float → Option Float → Float → Result Error Bool
  still_degraded samples current_median base_median delta =
      if ltb samples 40
      then ok true
      else number current_median λ observed.
        number base_median
          λ base. ok (lt (float_max h (mul base (decimal 125 2)) (add base delta)) observed)

  -- `if kind in kinds and test: return False`, and what follows it
  unfoldable pub unless_kind :
      Text → Dict (Evidence h) → Result Error Bool → Result Error Bool → Result Error Bool
  unless_kind kind kinds test rest =
      if contains kind kinds then (do failing ← test; if failing then ok false else rest) else rest

  unfoldable pub recovered : Stream h → Incident h → Result Error Bool
  recovered stream incident =
      let base = stats h stream.baseline in
      let current = stats h stream.current in
      let kinds = incident.signals in
      if ltb (length stream.current) window
      then ok false
      else unless_kind high_failure_rate kinds
          (ok (float_le h (decimal 25 2) current.failure_rate_interval_95.1))
          (unless_kind failure_rate_regression kinds
            (number current.failure_rate λ rate.
              number base.failure_rate λ base_rate. ok (lt (add base_rate (decimal 5 2)) rate))
            (unless_kind latency_degradation kinds
              (still_degraded current.latency_samples current.median_latency_ms
                base.median_latency_ms (of_ℕ 25))
              (unless_kind token_consumption_degradation kinds
                (still_degraded current.token_samples current.median_total_tokens
                  base.median_total_tokens (of_ℕ 50))
                (unless_kind retry_degradation kinds
                  (still_degraded current.retry_samples current.median_retry_count
                    base.median_retry_count (of_ℕ 1))
                  (ok true)))))
