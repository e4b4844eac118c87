-- ===== src/Delivery/Notices.antt =====
-- What the buses of packages/core/src/delivery-capacity.ts are told of the pressure.
use agent_phonon.Base.{
  ℕ, ◌≡◌, refl, Bool, true, not, ◌&&◌, ◌||◌, List, [], ◌∷◌, ◌++◌, Option, none, some, arith,
  if_both, Result, ok, err, if◌then◌else◌, ◌==◌,
}
use agent_phonon.Delivery.State.{
  OptionsError, Capacity, Channels, Pressure, Notice, state_is, persistence_failed,
  background_failed, normal, warning, critical, pressure_of, total_bytes,
}
use agent_phonon.Delivery.{
  failed, observe, snapshot, register_observers, parsed, with_limit, configure_parsed, configure,
  assert_new_work, background, add_to, emit_all, in_set, same_pressure, has_component,
}
use agent_phonon.Delivery.Admission.{
  Call, configures, snapshots, asserts, fails, background_fails, step, run, start, no_read,
}

-- The last state that the bus was told; a bus that was told nothing takes it as normal.
unfoldable pub told : List (ℕ × Notice) → ℕ → Pressure
told [] bus = normal
told ((b, state_is p) ∷ log) bus = if b == bus then p else told log bus
told ((b, persistence_failed) ∷ log) bus = told log bus
told ((b, background_failed component) ∷ log) bus = told log bus

told-emit_all :
    (buses : List ℕ) (p : Pressure) (log : List (ℕ × Notice)) (bus : ℕ)
    → told (emit_all buses (state_is p) log) bus ≡ (if in_set buses bus then p else told log bus)
unfolding told emit_all in_set
told-emit_all [] p log bus = refl
told-emit_all (b ∷ buses) p log bus =
    ground (arith, told-emit_all buses p ((b, state_is p) ∷ log) bus)

told-emit_failed :
    (buses : List ℕ) (log : List (ℕ × Notice)) (bus : ℕ)
    → told (emit_all buses persistence_failed log) bus ≡ told log bus
unfolding told emit_all
told-emit_failed [] log bus = refl
told-emit_failed (b ∷ buses) log bus = told-emit_failed buses ((b, persistence_failed) ∷ log) bus

told-emit_background :
    (component : Bool) (buses : List ℕ) (log : List (ℕ × Notice)) (bus : ℕ)
    → told (emit_all buses (background_failed component) log) bus ≡ told log bus
unfolding told emit_all
told-emit_background component [] log bus = refl
told-emit_background component (b ∷ buses) log bus =
    told-emit_background component buses ((b, background_failed component) ∷ log) bus

same_pressure-eq : (p q : Pressure) → same_pressure p q ≡ true → p ≡ q
same_pressure-eq normal normal h = refl
same_pressure-eq warning warning h = refl
same_pressure-eq critical critical h = refl
same_pressure-eq normal warning h = cc
same_pressure-eq normal critical h = cc
same_pressure-eq warning normal h = cc
same_pressure-eq warning critical h = cc
same_pressure-eq critical normal h = cc
same_pressure-eq critical warning h = cc

-- Each bus was told the state, and no other was told any.
abbrev IsTold : Capacity → Type 0
IsTold c = (bus : ℕ) → told c.log bus ≡ (if in_set c.buses bus then c.state else normal)

observe-IsTold : (c : Capacity) (channels : Channels) → IsTold c → IsTold (observe c channels)
unfolding observe
observe-IsTold c channels t bus =
    let now = pressure_of c.max_pending_bytes (total_bytes channels) in
    ground (arith, t bus, told-emit_all c.buses now c.log bus, same_pressure-eq now c.state)

failed-IsTold : (c : Capacity) → IsTold c → IsTold (failed c)
unfolding failed
failed-IsTold c t bus = ground (arith, t bus, told-emit_failed c.buses c.log bus)

in_set-append : (set : List ℕ) (x y : ℕ) → in_set (set ++ x ∷ []) y ≡ (in_set set y || x == y)
unfolding in_set
in_set-append [] x y = ground arith
in_set-append (z ∷ set) x y = ground (arith, in_set-append set x y)

register_observers-IsTold :
    (c : Capacity) (bus metrics : Option ℕ) (channels : Channels)
    → IsTold c
    → IsTold (register_observers c bus metrics (some channels)).0
unfolding register_observers snapshot observe told add_to
register_observers-IsTold c none metrics channels t b =
    let now = pressure_of c.max_pending_bytes (total_bytes channels) in
    ground (arith, t b, told-emit_all c.buses now c.log b, same_pressure-eq now c.state)
register_observers-IsTold c (some bus) metrics channels t b =
    let now = pressure_of c.max_pending_bytes (total_bytes channels) in
    ground (
      arith,
      t b,
      in_set-append c.buses bus b,
      told-emit_all c.buses now c.log b,
      told-emit_all (c.buses ++ bus ∷ []) now c.log b,
      same_pressure-eq now c.state,
      same_pressure-eq c.state now,
      same_pressure-eq now normal,
    )

background-IsTold : (c : Capacity) (component : Bool) → IsTold c → IsTold (background c component)
unfolding background
background-IsTold c component t =
    let after = failed c in
    if_both IsTold (has_component after.background_failures component) (λ _. failed-IsTold c t)
      (λ _ bus.
        ground
          (arith, failed-IsTold c t bus, told-emit_background component after.buses after.log bus))

snapshot-IsTold : (c : Capacity) (read : Option Channels) → IsTold c → IsTold (snapshot c read).0
unfolding snapshot
snapshot-IsTold c none t = failed-IsTold c t
snapshot-IsTold c (some channels) t = observe-IsTold c channels t

-- A call that brings in a bus reads what is pending.
unfoldable pub reads : Call → Bool
reads (configures given bus metrics read) = not (no_read read)
reads (snapshots read) = true
reads (asserts read) = true
reads fails = true
reads (background_fails component) = true

unfoldable pub all_read : List Call → Bool
unfolding reads
all_read [] = true
all_read (call ∷ calls) = reads call && all_read calls

configure_parsed-IsTold :
    (c : Capacity) (given : Result OptionsError (Option ℕ)) (bus metrics : Option ℕ)
    (channels : Channels)
    → IsTold c
    → IsTold (configure_parsed c given bus metrics (some channels)).0
unfolding configure_parsed
configure_parsed-IsTold c (err e) bus metrics channels t = t
configure_parsed-IsTold c (ok none) bus metrics channels t =
    register_observers-IsTold c bus metrics channels t
configure_parsed-IsTold c (ok (some limit)) bus metrics channels t =
    register_observers-IsTold (with_limit c (some limit)) bus metrics channels t

step-IsTold : (c : Capacity) (call : Call) → reads call ≡ true → IsTold c → IsTold (step c call)
unfolding step configure assert_new_work reads
step-IsTold c (configures given bus metrics none) h t = cc
step-IsTold c (configures given bus metrics (some channels)) h t =
    configure_parsed-IsTold c (parsed given) bus metrics channels t
step-IsTold c (snapshots read) h t = snapshot-IsTold c read t
step-IsTold c (asserts read) h t = snapshot-IsTold c read t
step-IsTold c fails h t = failed-IsTold c t
step-IsTold c (background_fails component) h t = background-IsTold c component t

run-IsTold :
    (c : Capacity) (calls : List Call) → all_read calls ≡ true → IsTold c → IsTold (run c calls)
unfolding run all_read
run-IsTold c [] h t = t
run-IsTold c (call ∷ calls) h t =
    run-IsTold (step c call) calls (ground arith) (step-IsTold c call (ground arith) t)

-- The last state that a bus was told is the monitor's state, whenever the bus came, through any
-- calls in which `configure` could read what is pending.
pub run-told :
    (limit : ℕ) (calls : List Call) (bus : ℕ)
    → all_read calls ≡ true
    → let c = run (start limit) calls in
      told c.log bus ≡ (if in_set c.buses bus then c.state else normal)
unfolding told in_set
run-told limit calls bus h = run-IsTold (start limit) calls h (λ _. refl) bus
