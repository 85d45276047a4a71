-- ===== src/Detection/State.antt =====
-- The state of src/reliamesh/detection.py, a JSON object there and records here, and its constants.
use reliamesh.Prelude.{ℕ, ◌*◌, Bool, Option, none, List, [], Text, Result, ok, err}
use reliamesh.Prelude.Dict.{Dict}
use reliamesh.Host.{Host, Instant, seconds, unix_epoch}
use reliamesh.Protocol.Event.{Operation, FailureType}

abbrev pub window : ℕ
window = 50

abbrev pub max_streams : ℕ
max_streams = 16

abbrev pub max_versions : ℕ
max_versions = 8

abbrev pub max_dedup : ℕ
max_dedup = 2048

abbrev pub max_incidents : ℕ
max_incidents = 32

abbrev pub max_state_bytes : ℕ
max_state_bytes = 650_000

-- `RETENTION_SECONDS` and `FUTURE_SECONDS`, in microseconds
abbrev pub retention : ℕ
retention = seconds (7 * 24 * 3600)

abbrev pub future : ℕ
future = seconds 300

-- The codes of `DetectionError`, and the errors of the interpreter that the code could meet:
-- `next` on an exhausted iterator, arithmetic on `None`, a missing key.
pub data Error : Type 0 where
  aware_now_required batch_size_exceeded event_expired event_in_future event_id_conflict
        stale_replay stream_limit_exceeded late_event version_limit_exceeded
        state_capacity_exceeded :
      Error
  stop_iteration type_error key_error : Error

-- A `datetime`, with a time zone or without.
pub data DateTime : Type 0 where
  aware : Instant → DateTime
  naive : DateTime

unfoldable pub epoch : DateTime → Result Error Instant
epoch (aware t) = ok t
epoch naive = err aware_now_required

pub record Sample (h : Host) : Type 0 where
  pub ts : Instant
  -- `int(event.outcome == "failure")`
  pub failed : ℕ
  pub latency : Option h.Float
  pub tokens : Option ℕ
  pub version : Text
  pub failure : Option FailureType
  pub retries : Option ℕ

pub record Dimensions : Type 0 where
  pub deployment_id : Text
  pub agent_id : Text
  pub operation : Operation
  pub synthetic : Bool

pub record Stream (h : Host) : Type 0 where
  pub dimensions : Dimensions
  pub baseline : List (Sample h)
  pub current : List (Sample h)
  pub versions : Dict (Dict Text)
  pub active_incident : Option Text
  pub last_timestamp : Instant

-- What `_stats` returns.
pub record Stats (h : Host) : Type 0 where
  pub count : ℕ
  pub failures : ℕ
  pub failure_rate : Option h.Float
  pub failure_rate_interval_95 : h.Float × h.Float
  pub latency_samples : ℕ
  pub median_latency_ms : Option h.Float
  pub token_samples : ℕ
  pub median_total_tokens : Option h.Float
  pub retry_samples : ℕ
  pub median_retry_count : Option h.Float
  pub first_timestamp : Option Instant
  pub last_timestamp : Option Instant
  pub version_counts : Dict ℕ

-- The evidence of one signal.
pub data Evidence (h : Host) : Type 0 where
  high_failure : h.Float × h.Float → Evidence h
  regression : h.Float → h.Float → h.Float × h.Float → h.Float × h.Float → Evidence h
  metric : h.Float → h.Float → h.Float → h.Float × h.Float → h.Float × h.Float → Evidence h

pub data Status : Type 0 where
  opened resolved expired : Status

pub data Resolution : Type 0 where
  recovered baseline_expired : Resolution

pub record Incident (h : Host) : Type 0 where
  pub incident_id : Text
  pub stream_id : Text
  pub status : Status
  pub opened_at : Instant
  pub resolved_at : Option Instant
  pub resolution : Option Resolution
  pub synthetic : Bool
  pub signals : Dict (Evidence h)
  pub baseline : Stats h
  pub current : Stats h

-- `accepted` and `duplicates`, of one batch or over the state's lifetime
pub record Counts : Type 0 where
  pub accepted : ℕ
  pub duplicates : ℕ

-- `usage`, which the ingestion endpoint keeps in the same object: a day and its accepted events
pub record Usage : Type 0 where
  pub day : ℕ
  pub events : ℕ

pub record State (h : Host) : Type 0 where
  pub streams : Dict (Stream h)
  -- event id ↦ digest and timestamp
  pub dedup : Dict (Text × Instant)
  pub incidents : List (Incident h)
  pub replay_floor : Instant
  pub totals : Counts
  pub usage : Option Usage

abbrev pub no_counts : Counts
no_counts = record { accepted = 0; duplicates = 0 }

unfoldable pub empty : (h : Host) → State h
empty h = record {
  streams = [];
  dedup = [];
  incidents = [];
  replay_floor = unix_epoch;
  totals = no_counts;
  usage = none;
}
