-- ===== src/Tests/Requests.antt =====
-- A batch under the daily quota.
use reliamesh.Prelude.{◌+◌, ◌≤◌, ◌≡◌, refl, none, some, [], ◌∷◌, ok}
use reliamesh.Host.{seconds}
use reliamesh.Detection.State.{State, aware}
use reliamesh.Detection.Batch.{process_events}
use reliamesh.Api.Endpoints.{day_of, used_today, update}
use reliamesh.Api.Quota.{update-quota}
use reliamesh.Tests.Toy.{toy, morning, first}
use reliamesh.Tests.Detector.{after_first, one_accepted, one_byte, program}

abbrev charged : State toy
charged = record after_first {
  totals = one_accepted;
  usage = some (record { day = day_of morning; events = 1 });
}

updated : update toy one_byte 1 (first ∷ []) morning none ≡ ok (charged, one_accepted)
unfolding program update used_today
updated = refl

update-quota_example :
    (used_today toy (morning + seconds 60) (some charged) ≡ used_today toy morning none + 1)
    × (used_today toy (morning + seconds 60) (some charged) ≤ 1)
    × ((new : State toy) × (process_events toy one_byte none (first ∷ []) (aware morning)
          ≡ ok (new, one_accepted))
        × (charged ≡ record new { usage = charged.usage }))
update-quota_example =
    update-quota toy one_byte 1 (first ∷ []) morning none charged one_accepted
      (morning + seconds 60) updated refl
