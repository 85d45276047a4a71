-- ===== src/Tests/Reports.antt =====
-- A report on the summary of a state with one event.
use reliamesh.Prelude.{◌≡◌, ◌≤◌, refl, true, some, length, text, All, ok, arith, in_range}
use reliamesh.Protocol.Json.{decimal_text}
use reliamesh.Detection.State.{State, aware}
use reliamesh.Detection.Rows.{Rows}
use reliamesh.Detection.Summary.{View, summarize}
use reliamesh.Attestation.Report.{
  is_version, project, report_from_summary, number_dot, digit_run, after_dot,
}
use reliamesh.Attestation.Capacity.{IsMarked}
use reliamesh.Attestation.Totals.{report_from_summary-total}
use reliamesh.Detection.Reads.{summarize-total}
use reliamesh.Tests.Toy.{toy, morning}
use reliamesh.Tests.Detector.{after_first, one_accepted, program, first_batch-IsValid}

abbrev state : State toy
state = record after_first { totals = one_accepted }

marked : All (λ e. Rows IsMarked e.1) state.streams
unfolding program
marked = (record { in_baseline = tt; in_current = (omega arith, tt) }, tt)

abbrev view : View toy
view = (summarize-total toy state morning first_batch-IsValid).0.0

viewed : summarize toy (some state) (aware morning) ≡ ok view
viewed = (summarize-total toy state morning first_batch-IsValid).0.1

few : length state.incidents ≤ 32
unfolding program
few = omega arith

version : is_version (text "0.12.3") ≡ true
unfolding is_version number_dot digit_run after_dot in_range
version = refl

report_from_summary-total_example :
    report_from_summary decimal_text (λ t. true) view true (text "0.12.3") (aware morning)
    ≡ ok (project view true (text "0.12.3") (decimal_text morning))
report_from_summary-total_example =
    report_from_summary-total decimal_text (λ t. true) state view true (text "0.12.3") morning
      morning first_batch-IsValid marked few version refl viewed
