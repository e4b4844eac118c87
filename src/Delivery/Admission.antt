-- ===== src/Delivery/Admission.antt =====
-- When the monitor of packages/core/src/delivery-capacity.ts lets new work in.
use agent_phonon.Base.{
  ℕ, ◌≡◌, refl, Bool, true, false, not, ◌&&◌, ◌||◌, List, [], ◌∷◌, Option, none, some, arith,
  Result, ok, err, ◌∙◌,
}
use agent_phonon.Delivery.State.{Options, OptionsError, Capacity, Channels, Pressure, normal}
use agent_phonon.Delivery.{
  Snapshot, failed, observe, snapshot, register_observers, parsed, with_limit, configure_parsed,
  configure, assert_new_work, background, tell_new, is_new, joined,
}

pub data Call : Type 0 where
  configures : Option Options → Option ℕ → Option ℕ → Option Channels → Call
  snapshots asserts : Option Channels → Call
  fails : Call
  background_fails : Bool → Call

unfoldable pub step : Capacity → Call → Capacity
unfolding configure snapshot assert_new_work failed background
step c (configures given bus metrics read) = (configure c given bus metrics read).0
step c (snapshots read) = (snapshot c read).0
step c (asserts read) = (assert_new_work c read).0
step c fails = failed c
step c (background_fails component) = background c component

unfoldable pub run : Capacity → List Call → Capacity
unfolding step
run c [] = c
run c (call ∷ calls) = run (step c call) calls

-- The constructor, with options that are in order.
abbrev pub start : ℕ → Capacity
start limit = record {
  max_pending_bytes = limit;
  state = normal;
  healthy = true;
  buses = [];
  metrics = [];
  background_failures = [];
  log = [];
  gauges = [];
}

abbrev pub no_read : Option Channels → Bool
no_read none = true
no_read (some channels) = false

abbrev pub accepted : Result OptionsError (Option ℕ) → Bool
accepted (err e) = false
accepted (ok limit) = true

-- The call reports a failure, or it reads what is pending and that throws.
unfoldable pub is_failure : Call → Bool
is_failure (configures given bus metrics read) = accepted (parsed given) && no_read read
is_failure (snapshots read) = no_read read
is_failure (asserts read) = no_read read
is_failure fails = true
is_failure (background_fails component) = true

unfoldable pub any_failure : List Call → Bool
unfolding is_failure
any_failure [] = false
any_failure (call ∷ calls) = is_failure call || any_failure calls

failed-healthy : (c : Capacity) → (failed c).healthy ≡ false
unfolding failed
failed-healthy c = ground arith

observe-healthy : (c : Capacity) (channels : Channels) → (observe c channels).healthy ≡ c.healthy
unfolding observe
observe-healthy c channels = ground arith

snapshot-healthy :
    (c : Capacity) (read : Option Channels)
    → (snapshot c read).0.healthy ≡ (c.healthy && not (no_read read))
unfolding snapshot
snapshot-healthy c none = ground (arith, failed-healthy c)
snapshot-healthy c (some channels) = ground (arith, observe-healthy c channels)

tell_new-healthy :
    (bus : Option ℕ) (new : Bool) (previous : Pressure) (r : Capacity × Option Snapshot)
    → (tell_new bus new previous r).0.healthy ≡ r.0.healthy
tell_new-healthy bus new previous (c, none) = refl
tell_new-healthy none new previous (c, some s) = refl
tell_new-healthy (some bus) new previous (c, some s) = ground arith

register_observers-healthy :
    (c : Capacity) (bus metrics : Option ℕ) (read : Option Channels)
    → (register_observers c bus metrics read).0.healthy ≡ (c.healthy && not (no_read read))
unfolding register_observers
register_observers-healthy c bus metrics read =
    tell_new-healthy bus (is_new c.buses bus) c.state (snapshot (joined c bus metrics) read)
    ∙ snapshot-healthy (joined c bus metrics) read

configure_parsed-healthy :
    (c : Capacity) (given : Result OptionsError (Option ℕ)) (bus metrics : Option ℕ)
    (read : Option Channels)
    → (configure_parsed c given bus metrics read).0.healthy
      ≡ (c.healthy && not (accepted given && no_read read))
unfolding configure_parsed
configure_parsed-healthy c (err e) bus metrics read = ground arith
configure_parsed-healthy c (ok none) bus metrics read =
    register_observers-healthy c bus metrics read
configure_parsed-healthy c (ok (some limit)) bus metrics read =
    register_observers-healthy (with_limit c (some limit)) bus metrics read

step-healthy :
    (c : Capacity) (call : Call) → (step c call).healthy ≡ (c.healthy && not (is_failure call))
unfolding step configure assert_new_work background is_failure
step-healthy c (configures given bus metrics read) =
    configure_parsed-healthy c (parsed given) bus metrics read
step-healthy c (snapshots read) = snapshot-healthy c read
step-healthy c (asserts read) = snapshot-healthy c read
step-healthy c fails = ground (arith, failed-healthy c)
step-healthy c (background_fails component) = ground (arith, failed-healthy c)

run-healthy :
    (c : Capacity) (calls : List Call)
    → (run c calls).healthy ≡ (c.healthy && not (any_failure calls))
unfolding run any_failure
run-healthy c [] = ground arith
run-healthy c (call ∷ calls) = ground (arith, run-healthy (step c call) calls, step-healthy c call)

-- After any calls, new work is let in if and only if none of them has met a failure: the failure
-- sticks, and no amount of pending bytes keeps work out. The last read of what is pending works.
pub run-assert_new_work :
    (limit : ℕ) (calls : List Call) (channels : Channels)
    → (assert_new_work (run (start limit) calls) (some channels)).1 ≡ not (any_failure calls)
unfolding assert_new_work snapshot
run-assert_new_work limit calls channels = ground (arith, run-healthy (start limit) calls)
