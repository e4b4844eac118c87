-- ===== src/Delivery/Tests.antt =====
-- Runs of the monitor of packages/core/src/delivery-capacity.ts, and the theorems at them.
use agent_phonon.Base.{ℕ, ◌≡◌, refl, true, not, List, [], ◌∷◌, none, some, ok, err, if◌then◌else◌}
use agent_phonon.Js.Text.{pos}
use agent_phonon.Delivery.State.{
  Channels, options, not_object, integer, absent, delivery_options, must_be_object,
  must_be_positive_integer, state_is, persistence_failed, background_failed, normal, warning,
  critical,
}
use agent_phonon.Delivery.{assert_new_work, in_set}
use agent_phonon.Delivery.Admission.{
  Call, configures, snapshots, background_fails, run, start, any_failure, run-assert_new_work,
}
use agent_phonon.Delivery.Notices.{told, all_read, run-told}

abbrev bytes : ℕ → Channels
bytes n = record {
  stream = record { count = 1; bytes = n };
  workflow = record { count = 0; bytes = 0 };
  run = record { count = 0; bytes = 0 };
}

-- A bus that comes at the state of warning is told of it, all are told of the recovery, and a
-- failure is told once.
abbrev calls : List Call
calls =
    configures none (some 1) none (some (bytes 10))
    ∷ snapshots (some (bytes 80))
    ∷ configures none (some 2) none (some (bytes 90))
    ∷ snapshots (some (bytes 100))
    ∷ snapshots none
    ∷ background_fails true
    ∷ background_fails true
    ∷ []

log_run :
    (run (start 100) calls).log
    ≡ (2, background_failed true)
      ∷ (1, background_failed true)
      ∷ (2, persistence_failed)
      ∷ (1, persistence_failed)
      ∷ (2, state_is critical)
      ∷ (1, state_is critical)
      ∷ (2, state_is warning)
      ∷ (1, state_is warning)
      ∷ []
unfolding run
log_run = refl

options_run :
    (delivery_options (options (integer (pos 0))) ≡ err must_be_positive_integer)
    × (delivery_options not_object ≡ err must_be_object)
    × (delivery_options (options absent) ≡ ok 1073741824)
options_run = (refl, refl, refl)

run-assert_new_work_example :
    (assert_new_work (run (start 100) calls) (some (bytes 0))).1 ≡ not (any_failure calls)
run-assert_new_work_example = run-assert_new_work 100 calls (bytes 0)

run-told_example :
    let c = run (start 100) calls in told c.log 2 ≡ (if in_set c.buses 2 then c.state else normal)
unfolding all_read
run-told_example = run-told 100 calls 2 refl
