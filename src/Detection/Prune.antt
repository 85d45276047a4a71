-- ===== src/Detection/Prune.antt =====
-- `_prune`, `_trim_versions` and `_incident` of src/reliamesh/detection.py.
use mathlib.Core.Option
use reliamesh.Prelude.{
  ◌+◌, Bool, true, false, Option, none, some, List, [], ◌∷◌, ◌++◌, map, Text, text_dec, ltb, leb,
  if◌then◌else◌, length, keep, any, take, drop, get_elem?, ite,
}
use reliamesh.Prelude.Dict.{Dict}
use reliamesh.Host.{Host, Instant}
use reliamesh.Detection.State.{
  Sample, Stream, Incident, State, Status, Resolution, empty, retention, window,
}

-- `t > now - RETENTION_SECONDS`
abbrev pub is_fresh : Instant → Instant → Bool
is_fresh now t = ltb now (t + retention)

unfoldable pub mem_text : Text → List Text → Bool
mem_text x [] = false
mem_text x (y ∷ ys) = ite (text_dec x y) true (mem_text x ys)

-- the update of the first element that passes the test
unfoldable pub update_first {ℓ} : {A : Type ℓ} → (A → Bool) → (A → A) → List A → List A
update_first p f [] = []
update_first p f (x ∷ xs) = if p x then f x ∷ xs else x ∷ update_first p f xs

module _ {h : Host} where
  -- `item["incident_id"] == id`
  abbrev pub has_id : Text → Incident h → Bool
  has_id id item = ite (text_dec item.incident_id id) true false

  unfoldable pub trim_versions : Stream h → Stream h
  trim_versions stream =
      let used = map (λ (row : Sample h). row.version) (stream.baseline ++ stream.current) in
      record stream { versions = keep (λ e. mem_text e.0 used) stream.versions }

  -- A partial baseline is rebuilt from what is left.
  unfoldable pub rebuild : Stream h → List (Sample h) → Stream h
  rebuild stream rows =
      if leb window (length rows)
      then record stream { baseline = take window rows; current = drop window rows }
      else record stream { baseline = []; current = rows }

  unfoldable pub expire : Option Instant → Incident h → Incident h
  expire baseline_expiry item = record item {
    status = Status.expired;
    resolved_at = baseline_expiry;
    resolution = some Resolution.baseline_expired;
  }

  -- the active incident, if it is still among the incidents
  unfoldable pub live_incident : List (Incident h) → Option Text → Option Text
  live_incident incidents none = none
  live_incident incidents (some id) = if any (has_id id) incidents then some id else none

  unfoldable pub expire_active :
      Option Instant → Option Text → List (Incident h) → List (Incident h)
  expire_active expiry none incidents = incidents
  expire_active expiry (some id) incidents = update_first (has_id id) (expire expiry) incidents

  -- One stream of the loop: the stream, unless it is deleted, and the incidents.
  unfoldable pub prune_stream :
      Instant → List (Incident h) → Stream h → Option (Stream h) × List (Incident h)
  prune_stream now incidents stream =
      let fresh = λ (row : Sample h). is_fresh now row.ts in
      let baseline = keep fresh stream.baseline in
      let current = keep fresh stream.current in
      let active = live_incident incidents stream.active_incident in
      let expiry =
        Option.map (λ (row : Sample h). row.ts + retention) (get_elem? stream.baseline 0) in
      if leb (stream.last_timestamp + retention) now
      then (none, incidents)
      else if ltb (length baseline) (length stream.baseline)
      then (
        some (
            trim_versions
              (rebuild (record stream { active_incident = none }) (baseline ++ current))),
        expire_active expiry active incidents,
      )
      else (
        some (
            trim_versions
              (record stream { baseline = baseline; current = current; active_incident = active })),
        incidents,
      )

  unfoldable pub keep_stream : Text → Option (Stream h) → Dict (Stream h) → Dict (Stream h)
  keep_stream key none rest = rest
  keep_stream key (some stream) rest = (key, stream) ∷ rest

  -- `for key, stream in list(state["streams"].items())`
  unfoldable pub prune_streams :
      Instant → List (Incident h) → Dict (Stream h) → Dict (Stream h) × List (Incident h)
  prune_streams now incidents [] = ([], incidents)
  prune_streams now incidents (e ∷ streams) =
      let (kept, incidents') = prune_stream now incidents e.1 in
      let (rest, incidents'') = prune_streams now incidents' streams in
      (keep_stream e.0 kept rest, incidents'')

  -- an empty object is false, and stands for the empty state
  unfoldable pub or_empty : Option (State h) → State h
  or_empty none = empty h
  or_empty (some state) = state

  unfoldable pub prune : Option (State h) → Instant → State h
  prune given now =
      let state = or_empty given in
      let incidents = keep (λ (item : Incident h). is_fresh now item.opened_at) state.incidents in
      let (streams, incidents') = prune_streams now incidents state.streams in
      record state {
        dedup = keep (λ e. is_fresh now e.1.1) state.dedup;
        incidents = incidents';
        streams = streams;
      }
