-- ===== src/Tests/Detector.antt =====
-- The detector, run.
use reliamesh.Prelude.{
  ℕ, ◌+◌, ◌≡◌, ◌≤◌, refl, some, [], ◌∷◌, length, Result, ok, err, arith, text_dec, text_le,
}
use reliamesh.Prelude.Dict.{lookup, insert}
use reliamesh.Host.{seconds}
use reliamesh.Protocol.Json.{decimal_text, dumps, canonical_hash}
use reliamesh.Protocol.Event.{operation_text, labels, string_members, version_metadata, model_dump}
use reliamesh.Detection.State.{
  State, Counts, empty, epoch, aware, naive, aware_now_required, no_counts, max_dedup,
  max_state_bytes, Error,
}
use reliamesh.Detection.Signals.{signals}
use reliamesh.Detection.Prune
use reliamesh.Detection.Process
use reliamesh.Detection.Batch.{
  key_le, insert_by, sort_by, sort_events, bound_dedup, add_totals, process_events,
}
use reliamesh.Detection.Summary
use reliamesh.Detection.Invariant.{IsValid, empty-IsValid, process_events-IsValid}
use reliamesh.Detection.Counting.{process_events-counts}
use reliamesh.Detection.Memory.{process_events-Reach, at_most_once}
use reliamesh.Detection.Reads.{summarize-total}
use reliamesh.Tests.Toy.{toy, morning, first, second, value_or}

unfoldable pub program : Unit {0}
unfolding Process.accept_event Process.sample_of Process.stream_for Process.add_version
    Process.update_stream Process.settle Process.process_event Process.process_all Process.evaluate
    Process.push Process.promote Process.dimensions_of Process.stream_hash Process.version_hash
    Process.event_digest Process.total_tokens Process.open_incident signals process_events
    sort_events sort_by insert_by key_le bound_dedup add_totals epoch Prune.prune Prune.or_empty
    empty Prune.prune_streams Prune.prune_stream Prune.keep_stream Prune.trim_versions
    Prune.live_incident Prune.expire_active Prune.mem_text canonical_hash model_dump
    version_metadata labels string_members operation_text lookup insert text_dec text_le
    decimal_text dumps
program = tt

abbrev pub one_byte : State toy → ℕ
one_byte s = 1

abbrev pub begun : State toy
begun = empty toy

abbrev pub after_first : State toy
after_first = value_or begun (Process.accept_event toy begun first)

accepted : Process.accept_event toy begun first ≡ ok after_first
unfolding program
accepted = refl

-- a second batch, a second after the first event
abbrev batch : Result Error (State toy × Counts)
batch = process_events toy one_byte (some after_first) (second ∷ []) (aware (morning + seconds 1))

abbrev after_second : State toy
after_second = (value_or (after_first, no_counts) batch).0

abbrev pub one_accepted : Counts
one_accepted = record { accepted = 1; duplicates = 0 }

ran :
    process_events toy one_byte (some after_first) (second ∷ []) (aware (morning + seconds 1))
    ≡ ok (after_second, one_accepted)
unfolding program
ran = refl

again :
    Process.process_event toy (morning + seconds 1) (after_second, no_counts) first
    ≡ ok (after_second, record { accepted = 0; duplicates = 1 })
unfolding program
again = refl

at_most_once_example :
    ◌≡◌ {A = State toy × Counts}
      (after_second, record { accepted = 0; duplicates = 1 })
      (after_second, record { accepted = 0; duplicates = 1 })
unfolding program
at_most_once_example =
    at_most_once morning (morning + seconds 1) begun after_first after_second first no_counts
      (after_second, record { accepted = 0; duplicates = 1 }) tt accepted
      (process_events-Reach one_byte morning (morning + seconds 1) after_first after_second
        one_accepted (second ∷ []) (omega arith) ran)
      again

process_events-counts_example :
    (◌≡◌ {A = ℕ} (1 + 0) 1)
    × (after_second.totals.accepted ≡ after_first.totals.accepted + 1)
    × (after_second.totals.duplicates ≡ after_first.totals.duplicates + 0)
process_events-counts_example =
    process_events-counts one_byte after_first (second ∷ []) (aware (morning + seconds 1))
      after_second one_accepted ran

-- the same state, as a batch leaves it
first_batch :
    process_events toy one_byte (some begun) (first ∷ []) (aware morning)
    ≡ ok (record after_first { totals = one_accepted }, one_accepted)
unfolding program
first_batch = refl

pub first_batch-IsValid : IsValid (record after_first { totals = one_accepted })
first_batch-IsValid =
    (process_events-IsValid one_byte (some begun) (first ∷ []) (aware morning) _ _ empty-IsValid
      first_batch).0

process_events-IsValid_example :
    IsValid (record after_first { totals = one_accepted })
    × (length after_first.dedup ≤ max_dedup)
    × (1 ≤ max_state_bytes)
process_events-IsValid_example =
    process_events-IsValid one_byte (some begun) (first ∷ []) (aware morning)
      (record after_first { totals = one_accepted }) one_accepted empty-IsValid first_batch

summarize-total_example :
    let state = record after_first { totals = one_accepted } in
    ((v : Summary.View toy) × (Summary.summarize toy (some state) (aware (morning + seconds 2))
        ≡ ok v))
    × (Summary.summarize toy (some state) naive ≡ err aware_now_required)
summarize-total_example =
    summarize-total toy (record after_first { totals = one_accepted }) (morning + seconds 2)
      first_batch-IsValid
