-- ===== src/Detection/Stats.antt =====
-- `wilson_interval` and `_stats` of src/reliamesh/detection.py, with `statistics.median`.
use mathlib.Core.Option
use reliamesh.Prelude.{
  ℕ, ◌+◌, ◌-◌, ◌/◌, ◌%◌, Option, none, some, List, [], ◌∷◌, map, Text, ◌==◌, if◌then◌else◌, length,
  get_elem?, get_last?,
}
use reliamesh.Prelude.Dict.{Dict, lookup, insert}
use reliamesh.Protocol.Json.{sort_keys}
use reliamesh.Host.{Host, float_max, float_min}
use reliamesh.Detection.State.{Sample, Stats}

-- `[row[index] for row in rows if row[index] is not None]`
unfoldable pub known {ℓ κ} : {A : Type ℓ} {B : Type κ} → (A → Option B) → List A → List B
known index [] = []
known index (row ∷ rows) = elim (index row) [
  | none ↦ known index rows
  | some v ↦ v ∷ known index rows
]

-- `sum(row[FAILED] for row in rows)`
unfoldable pub sum_failed : {h : Host} → List (Sample h) → ℕ
sum_failed [] = 0
sum_failed (row ∷ rows) = row.failed + sum_failed rows

-- `Counter(keys)`
unfoldable pub counter : List Text → Dict ℕ → Dict ℕ
counter [] counts = counts
counter (key ∷ keys) counts =
    counter keys (insert key (Option.get_or (lookup key counts) 0 + 1) counts)

module _ (h : Host) where
  open h use {Float, of_ℕ, decimal, add, sub, mul, div, sqrt, lt, round6}

  unfoldable pub wilson_interval : ℕ → ℕ → Float × Float
  wilson_interval failures count =
      let n = of_ℕ count in
      let z = decimal 1_959_963_984_540_054 15 in
      let rate = div (of_ℕ failures) n in
      let denominator = add (of_ℕ 1) (div (mul z z) n) in
      let center = div (add rate (div (mul z z) (mul (of_ℕ 2) n))) denominator in
      let spread =
        add (div (mul rate (sub (of_ℕ 1) rate)) n) (div (mul z z) (mul (mul (of_ℕ 4) n) n)) in
      let radius = div (mul z (sqrt spread)) denominator in
      if count == 0 then (of_ℕ 0, of_ℕ 1) else (
        if failures == 0 then of_ℕ 0 else float_max h (of_ℕ 0) (sub center radius),
        if failures == count then of_ℕ 1 else float_min h (of_ℕ 1) (add center radius),
      )

  unfoldable pub insert_float : Float → List Float → List Float
  insert_float x [] = x ∷ []
  insert_float x (y ∷ ys) = if lt y x then y ∷ insert_float x ys else x ∷ y ∷ ys

  unfoldable pub sorted : List Float → List Float
  sorted [] = []
  sorted (x ∷ xs) = insert_float x (sorted xs)

  -- `median`, which raises on an empty list: `none`
  unfoldable pub median : List Float → Option Float
  median xs =
      let n = length xs in
      let ordered = sorted xs in
      if n % 2 == 1 then get_elem? ordered (n / 2) else elim (get_elem? ordered (n / 2 - 1)) [
        | none ↦ none
        | some low ↦ elim (get_elem? ordered (n / 2)) [
          | none ↦ none
          | some high ↦ some (div (add low high) (of_ℕ 2))
        ]
      ]

  -- the columns of a row, as the floats that the arithmetic on them uses
  unfoldable pub latency_of : Sample h → Option Float
  latency_of row = row.latency

  unfoldable pub tokens_of : Sample h → Option Float
  tokens_of row = Option.map of_ℕ row.tokens

  unfoldable pub retries_of : Sample h → Option Float
  retries_of row = Option.map of_ℕ row.retries

  unfoldable pub stats : List (Sample h) → Stats h
  stats rows =
      let failed = sum_failed rows in
      let latencies = known latency_of rows in
      let tokens = known tokens_of rows in
      let retries = known retries_of rows in
      let (low, high) = wilson_interval failed (length rows) in
      record {
        count = length rows;
        failures = failed;
        failure_rate =
            if length rows == 0 then none else some (div (of_ℕ failed) (of_ℕ (length rows)));
        failure_rate_interval_95 = (round6 low, round6 high);
        latency_samples = length latencies;
        median_latency_ms = median latencies;
        token_samples = length tokens;
        median_total_tokens = median tokens;
        retry_samples = length retries;
        median_retry_count = median retries;
        first_timestamp = Option.map (λ (row : Sample h). row.ts) (get_elem? rows 0);
        last_timestamp = Option.map (λ (row : Sample h). row.ts) (get_last? rows);
        version_counts = sort_keys (counter (map (λ (row : Sample h). row.version) rows) []);
      }
