-- ===== src/Detection/Summary.antt =====
-- `_fingerprints` and `summarize` of src/reliamesh/detection.py.
use reliamesh.Prelude.{
  ℕ, ◌+◌, Bool, Option, none, some, List, [], ◌∷◌, map, Text, text_le, ltb, ◌==◌, if◌then◌else◌,
  length, take, ◌||◌, Result, ok, err, ◌>>=◌,
}
use reliamesh.Prelude.Dict.{Dict, lookup, insert}
use reliamesh.Host.{Host}
use reliamesh.Protocol.Json.{canonical_hash}
use reliamesh.Protocol.Event.{
  FailureType, labels, field_text, public_component_fields, fingerprint_members,
}
use reliamesh.Detection.State.{
  Sample, Dimensions, Stream, Stats, Incident, State, Counts, Error, DateTime, epoch, window,
  key_error,
}
use reliamesh.Detection.Stats.{stats}
use reliamesh.Detection.Prune.{prune}
use reliamesh.Detection.Batch.{sort_by, key_le}

pub record FailureGroup : Type 0 where
  pub fingerprint : Text
  pub count : ℕ
  pub failure_type : Option FailureType

pub data StreamStatus : Type 0 where
  degraded warming observed : StreamStatus

pub record StreamView (h : Host) : Type 0 where
  pub stream_id : Text
  pub dimensions : Dimensions
  pub status : StreamStatus
  pub warmup : Bool
  pub baseline : Stats h
  pub current : Stats h
  pub active_incident : Option Text
  pub versions : Dict (Dict Text)
  pub failure_fingerprints : List FailureGroup

-- What `summarize` returns, less its constant members.
pub record View (h : Host) : Type 0 where
  pub totals : Counts
  pub streams : List (StreamView h)
  pub incidents : List (Incident h)

-- `counts[value] += 1; classifications[value] = row[FAILURE]`
unfoldable pub tally :
    Text → Option FailureType → Dict (ℕ × Option FailureType) → Dict (ℕ × Option FailureType)
tally value failure counts = elim (lookup value counts) [
  | none ↦ insert value (1, failure) counts
  | some e ↦ insert value (e.0 + 1, failure) counts
]

unfoldable pub as_group : Text × (ℕ × Option FailureType) → FailureGroup
as_group e = record { fingerprint = e.0; count = e.1.0; failure_type = e.1.1 }

module _ (h : Host) where
  unfoldable pub row_fingerprint : Stream h → Sample h → Dict Text → Text
  row_fingerprint stream row metadata = canonical_hash h (
      fingerprint_members h stream.dimensions.operation row.failure
        (labels public_component_fields (λ key. lookup (field_text key) metadata)))

  -- the loop over the rows
  unfoldable pub count_failures :
      Stream h
      → List (Sample h)
      → Dict (ℕ × Option FailureType)
      → Result Error (Dict (ℕ × Option FailureType))
  count_failures stream [] counts = ok counts
  count_failures stream (row ∷ rows) counts =
      if row.failed == 0
      then count_failures stream rows counts
      else (elim (lookup row.version stream.versions) [
        | none ↦ err key_error
        | some metadata ↦
            count_failures stream rows
              (tally (row_fingerprint stream row metadata) row.failure counts)
      ])

  unfoldable pub fingerprints : Stream h → Result Error (List FailureGroup)
  fingerprints stream = do
    counts ← count_failures stream stream.current []
    ok (map as_group (take 16 (sort_by (λ a b. key_le b.1.0 a.0 a.1.0 b.0) counts)))

  unfoldable pub stream_view : Text × Stream h → Result Error (StreamView h)
  stream_view e =
      let warmup = ltb (length e.1.baseline) window || ltb (length e.1.current) window in
      do
        groups ← fingerprints e.1
        ok (record {
          stream_id = e.0;
          dimensions = e.1.dimensions;
          status = elim e.1.active_incident [
            | some id ↦ StreamStatus.degraded
            | none ↦ if warmup then StreamStatus.warming else StreamStatus.observed
          ];
          warmup = warmup;
          baseline = stats h e.1.baseline;
          current = stats h e.1.current;
          active_incident = e.1.active_incident;
          versions = e.1.versions;
          failure_fingerprints = groups;
        })

  unfoldable pub stream_views : Dict (Stream h) → Result Error (List (StreamView h))
  stream_views [] = ok []
  stream_views (e ∷ streams) = do
    view ← stream_view e
    views ← stream_views streams
    ok (view ∷ views)

  unfoldable pub summarize : Option (State h) → DateTime → Result Error (View h)
  summarize given now = do
    at_time ← epoch now
    let view = prune given at_time
    streams ← stream_views (sort_by (λ (a b : Text × Stream h). text_le a.0 b.0) view.streams)
    ok (record { totals = view.totals; streams = streams; incidents = view.incidents })
