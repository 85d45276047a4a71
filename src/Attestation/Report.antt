-- ===== src/Attestation/Report.antt =====
-- `WindowReport` and `report_from_summary` of src/reliamesh/attestation.py.
use reliamesh.Prelude.{
  ℕ, suc, ◌+◌, ◌*◌, Bool, true, false, Option, none, some, List, [], ◌∷◌, Text, length, keep, any,
  max, in_range, ltb, leb, ◌==◌, if◌then◌else◌, not, ◌&&◌, ◌||◌, Result, ok, err, ◌>>◌, raise_if,
}
use reliamesh.Host.{Host, Instant}
use reliamesh.Storage.Sqlite.Tables.{same}
use reliamesh.Detection.State.{Incident, DateTime, aware, naive, Status}
use reliamesh.Detection.Summary.{StreamView, View}

pub record Report : Type 0 where
  pub server_version : Text
  pub generated_at : Text
  pub synthetic : Bool
  pub stream_count : ℕ
  pub baseline_samples : ℕ
  pub baseline_failures : ℕ
  pub current_samples : ℕ
  pub current_failures : ℕ
  pub open_incidents : ℕ
  pub resolved_incidents : ℕ
  pub expired_incidents : ℕ

-- A field out of its range or pattern, the rejections of the validators, and a naive time.
pub data Error : Type 0 where
  invalid_field invalid_timestamp failures_exceed_samples samples_exceed_capacity
        incidents_exceed_capacity aware_time_required :
      Error

-- the digits that a text begins with, and what follows them
unfoldable pub digit_run : Text → ℕ × Text
digit_run [] = (0, [])
digit_run (c ∷ cs) =
    let (n, rest) = digit_run cs in if in_range b'0' b'9' c then (suc n, rest) else (0, c ∷ cs)

unfoldable pub after_dot : Text → Option Text
after_dot [] = none
after_dot (c ∷ cs) = if c == b'.' then some cs else none

-- `[0-9]{1,4}`, and then a dot
unfoldable pub number_dot : Text → Option Text
number_dot t = let (n, rest) = digit_run t in if leb 1 n && leb n 4 then after_dot rest else none

-- `^[0-9]{1,4}\.[0-9]{1,4}\.[0-9]{1,4}$`
unfoldable pub is_version : Text → Bool
is_version t = elim (number_dot t) [
  | none ↦ false
  | some minor ↦ elim (number_dot minor) [
    | none ↦ false
    | some micro ↦ let (n, rest) = digit_run micro in leb 1 n && (leb n 4 && (length rest == 0))
  ]
]

unfoldable pub are_in_range : Report → Bool
are_in_range r =
    is_version r.server_version
    && (leb r.stream_count 16
        && (leb r.baseline_samples 800
            && (leb r.baseline_failures 800
                && (leb r.current_samples 800
                    && (leb r.current_failures 800
                        && (leb r.open_incidents 32
                            && (leb r.resolved_incidents 32 && leb r.expired_incidents 32)))))))

-- `WindowReport.counts`
unfoldable pub counts : Report → Result Error Report
counts r = do
  raise_if (ltb r.baseline_samples r.baseline_failures || ltb r.current_samples r.current_failures)
      failures_exceed_samples
  raise_if (ltb (r.stream_count * 50) (max r.baseline_samples r.current_samples))
      samples_exceed_capacity
  raise_if (ltb 32 (r.open_incidents + r.resolved_incidents + r.expired_incidents))
      incidents_exceed_capacity
  ok r

-- The timestamp's validator is an argument: whether a text is the canonical form of its time.
module _ (is_canonical : Text → Bool) where
  unfoldable pub validate : Report → Result Error Report
  validate r = do
    raise_if (not (are_in_range r)) invalid_field
    raise_if (not (is_canonical r.generated_at)) invalid_timestamp
    counts r

-- `sum(f(x) for x in xs)`
unfoldable pub sum {ℓ} : {A : Type ℓ} → (A → ℕ) → List A → ℕ
sum f [] = 0
sum f (x ∷ xs) = f x + sum f xs

abbrev pub is_same_bool : Bool → Bool → Bool
is_same_bool true b = b
is_same_bool false b = not b

abbrev pub is_status : Status → Status → Bool
is_status Status.opened Status.opened = true
is_status Status.resolved Status.resolved = true
is_status Status.expired Status.expired = true
is_status _ _ = false

module _ {h : Host} where
  unfoldable pub selected_streams : Bool → List (StreamView h) → List (StreamView h)
  selected_streams synthetic =
      keep (λ (s : StreamView h). is_same_bool s.dimensions.synthetic synthetic)

  -- the incidents of the selected streams
  unfoldable pub selected_incidents :
      Bool → List (StreamView h) → List (Incident h) → List (Incident h)
  selected_incidents synthetic streams = keep (λ (i : Incident h).
      is_same_bool i.synthetic synthetic
      && any (λ (s : StreamView h). same s.stream_id i.stream_id) streams)

  unfoldable pub with_status : Status → List (Incident h) → ℕ
  with_status status incidents =
      length (keep (λ (i : Incident h). is_status i.status status) incidents)

  unfoldable pub project : View h → Bool → Text → Text → Report
  project summary synthetic server_version generated_at =
      let streams = selected_streams synthetic summary.streams in
      let incidents = selected_incidents synthetic streams summary.incidents in
      record {
        server_version = server_version;
        generated_at = generated_at;
        synthetic = synthetic;
        stream_count = length streams;
        baseline_samples = sum (λ (s : StreamView h). s.baseline.count) streams;
        baseline_failures = sum (λ (s : StreamView h). s.baseline.failures) streams;
        current_samples = sum (λ (s : StreamView h). s.current.count) streams;
        current_failures = sum (λ (s : StreamView h). s.current.failures) streams;
        open_incidents = with_status Status.opened incidents;
        resolved_incidents = with_status Status.resolved incidents;
        expired_incidents = with_status Status.expired incidents;
      }

  -- The stamp of a time, and the validator of such a text.
  unfoldable pub report_from_summary :
      (Instant → Text) → (Text → Bool) → View h → Bool → Text → DateTime → Result Error Report
  report_from_summary stamp is_canonical summary synthetic server_version naive =
      err aware_time_required
  report_from_summary stamp is_canonical summary synthetic server_version (aware t) =
      validate is_canonical (project summary synthetic server_version (stamp t))
