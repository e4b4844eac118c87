-- ===== src/Delivery.antt =====
-- The pressure monitor of packages/core/src/delivery-capacity.ts. What `readPending` returns or
-- throws is an argument of each call; a bus and a collector of metrics are known by a number.
pub mod State
pub mod Notices
pub mod Admission
mod Tests
use agent_phonon.Base.{
  ℕ, suc, ◌+◌, ◌*◌, ◌/◌, Bool, true, false, not, ◌&&◌, ◌||◌, List, [], ◌∷◌, ◌++◌, Option, none,
  some, if◌then◌else◌, leb, ltb, ◌==◌, Result, ok, err, ◌>>=◌,
}
use agent_phonon.Js.Text.{ℤ, pos, negsuc}
use agent_phonon.Delivery.State.{
  Bytes, Options, default_max_pending_bytes, OptionsError, check_bytes, delivery_options,
  DeliveryPending, Channels, Pressure, Notice, Gauge, Capacity, total_bytes, total_count,
  warning_bytes, pressure_of, absent, not_number, not_integer, integer, no_options, not_object,
  options, must_be_object, must_be_positive_integer, normal, warning, critical, state_is,
  persistence_failed, background_failed, pending_bytes, pending_events, max_pending,
  admission_blocked, persistence_healthy, pressure_critical, Gauge, channel_bytes, channel_events,
}

abbrev pub same_pressure : Pressure → Pressure → Bool
same_pressure normal normal = true
same_pressure warning warning = true
same_pressure critical critical = true
same_pressure normal warning = false
same_pressure normal critical = false
same_pressure warning normal = false
same_pressure warning critical = false
same_pressure critical normal = false
same_pressure critical warning = false

unfoldable pub emit_all : List ℕ → Notice → List (ℕ × Notice) → List (ℕ × Notice)
emit_all [] notice log = log
emit_all (bus ∷ buses) notice log = emit_all buses notice ((bus, notice) ∷ log)

abbrev pub emit : Capacity → Notice → Capacity
emit c notice = record c { log = emit_all c.buses notice c.log }

abbrev pub number : Bool → ℕ
number true = 1
number false = 0

-- `setGauge` for each collector, in the order of the code.
abbrev pub snapshot_gauges : Capacity → Channels → ℕ → List (ℕ × Gauge × ℕ)
snapshot_gauges c channels m =
    (m, channel_events 2, channels.run.count)
    ∷ (m, channel_bytes 2, channels.run.bytes)
    ∷ (m, channel_events 1, channels.workflow.count)
    ∷ (m, channel_bytes 1, channels.workflow.bytes)
    ∷ (m, channel_events 0, channels.stream.count)
    ∷ (m, channel_bytes 0, channels.stream.bytes)
    ∷ (m, pressure_critical, number (same_pressure c.state critical))
    ∷ (m, persistence_healthy, number c.healthy)
    ∷ (m, admission_blocked, number (not c.healthy))
    ∷ (m, max_pending, c.max_pending_bytes)
    ∷ (m, pending_events, total_count channels)
    ∷ (m, pending_bytes, total_bytes channels)
    ∷ []

unfoldable pub set_gauges :
    (ℕ → List (ℕ × Gauge × ℕ)) → List ℕ → List (ℕ × Gauge × ℕ) → List (ℕ × Gauge × ℕ)
set_gauges of [] gauges = gauges
set_gauges of (m ∷ metrics) gauges = set_gauges of metrics (of m ++ gauges)

unfoldable pub failed : Capacity → Capacity
unfolding emit_all set_gauges
failed c =
    let told = emit (record c { healthy = false }) persistence_failed in
    if not c.healthy then c else record told {
      gauges =
          set_gauges (λ m. (m, admission_blocked, 1) ∷ (m, persistence_healthy, 0) ∷ []) c.metrics
            c.gauges;
    }

-- The fields that the callers read.
pub record Snapshot : Type 0 where
  pub state : Pressure
  pub admission_blocked : Bool

-- The new state is recorded and told before the gauges are set.
unfoldable pub observe : Capacity → Channels → Capacity
unfolding emit_all set_gauges
observe c channels =
    let now = pressure_of c.max_pending_bytes (total_bytes channels) in
    let seen =
      if same_pressure now c.state then c else emit (record c { state = now }) (state_is now) in
    record seen { gauges = set_gauges (snapshot_gauges seen channels) seen.metrics seen.gauges }

-- Where `readPending` throws, so does the snapshot.
unfoldable pub snapshot : Capacity → Option Channels → Capacity × Option Snapshot
unfolding failed observe
snapshot c none = (failed c, none)
snapshot c (some channels) =
    let after = observe c channels in
    (
      after,
      some (record {
        state = pressure_of c.max_pending_bytes (total_bytes channels);
        admission_blocked = not c.healthy;
      }),
    )

unfoldable pub in_set : List ℕ → ℕ → Bool
in_set [] x = false
in_set (y ∷ set) x = y == x || in_set set x

unfoldable pub add_to : List ℕ → Option ℕ → List ℕ
unfolding in_set
add_to set none = set
add_to set (some x) = if in_set set x then set else set ++ x ∷ []

abbrev pub is_new : List ℕ → Option ℕ → Bool
is_new set none = false
is_new set (some x) = not (in_set set x)

-- A bus that comes later is told of a state that is not normal and has not just been told to all.
abbrev pub tell_new : Option ℕ → Bool → Pressure → Capacity × Option Snapshot → Capacity × Bool
tell_new bus new previous (c, none) = (c, false)
tell_new none new previous (c, some s) = (c, true)
tell_new (some bus) new previous (c, some s) = (
  if new && same_pressure previous s.state && not (same_pressure s.state normal)
      then record c { log = (bus, state_is s.state) ∷ c.log }
      else c,
  true,
)

abbrev pub joined : Capacity → Option ℕ → Option ℕ → Capacity
joined c bus metrics = record c { buses = add_to c.buses bus; metrics = add_to c.metrics metrics }

-- The part of `configure` behind the options; false where it throws.
unfoldable pub register_observers :
    Capacity → Option ℕ → Option ℕ → Option Channels → Capacity × Bool
unfolding snapshot add_to in_set
register_observers c bus metrics read =
    tell_new bus (is_new c.buses bus) c.state (snapshot (joined c bus metrics) read)

abbrev pub parsed : Option Options → Result OptionsError (Option ℕ)
parsed none = ok none
parsed (some given) = delivery_options given >>= (λ bytes. ok (some bytes))

abbrev pub with_limit : Capacity → Option ℕ → Capacity
with_limit c none = c
with_limit c (some bytes) = record c { max_pending_bytes = bytes }

unfoldable pub configure_parsed :
    Capacity
    → Result OptionsError (Option ℕ)
    → Option ℕ
    → Option ℕ
    → Option Channels
    → Capacity × Bool
unfolding register_observers
configure_parsed c (err e) bus metrics read = (c, false)
configure_parsed c (ok limit) bus metrics read =
    register_observers (with_limit c limit) bus metrics read

unfoldable pub configure :
    Capacity → Option Options → Option ℕ → Option ℕ → Option Channels → Capacity × Bool
unfolding configure_parsed
configure c given bus metrics read = configure_parsed c (parsed given) bus metrics read

-- True where it returns; it throws where the snapshot does or the admission is blocked.
abbrev pub admits : Option Snapshot → Bool
admits none = false
admits (some s) = not s.admission_blocked

unfoldable pub assert_new_work : Capacity → Option Channels → Capacity × Bool
unfolding snapshot
assert_new_work c read = let (after, result) = snapshot c read in (after, admits result)

unfoldable pub has_component : List Bool → Bool → Bool
has_component [] b = false
has_component (true ∷ set) b = b || has_component set b
has_component (false ∷ set) b = not b || has_component set b

-- The workflow engine is true, the scheduler false.
unfoldable pub background : Capacity → Bool → Capacity
unfolding failed emit_all has_component
background c component =
    let after = failed c in
    let noted = record after {
      background_failures = after.background_failures ++ component ∷ [];
    } in
    if has_component after.background_failures component
    then after
    else emit noted (background_failed component)
