-- ===== src/Delivery/State.antt =====
-- The options of packages/core/src/delivery-capacity.ts, the fields of the class and its thresholds.
use agent_phonon.Base.{ℕ, ◌+◌, ◌*◌, ◌/◌, Bool, ◌&&◌, List, if◌then◌else◌, leb, ltb, Result, ok, err}
use agent_phonon.Js.Text.{ℤ, pos, negsuc}

-- A value of the option `maxPendingBytes`, and the option object. A number that is no integer is
-- `not_integer`.
pub data Bytes : Type 0 where
  absent not_number not_integer : Bytes
  integer : ℤ → Bytes

pub data Options : Type 0 where
  no_options not_object : Options
  options : Bytes → Options

abbrev pub default_max_pending_bytes : ℕ
default_max_pending_bytes = 1073741824

pub data OptionsError : Type 0 where
  must_be_object must_be_positive_integer : OptionsError

abbrev pub check_bytes : Bytes → Result OptionsError ℕ
check_bytes absent = ok default_max_pending_bytes
check_bytes not_number = err must_be_positive_integer
check_bytes not_integer = err must_be_positive_integer
check_bytes (integer (negsuc n)) = err must_be_positive_integer
check_bytes (integer (pos n)) =
    if leb n 9007199254740991 && ltb 0 n then ok n else err must_be_positive_integer

abbrev pub delivery_options : Options → Result OptionsError ℕ
delivery_options no_options = ok default_max_pending_bytes
delivery_options not_object = err must_be_object
delivery_options (options value) = check_bytes value

pub record DeliveryPending : Type 0 where
  pub count : ℕ
  pub bytes : ℕ

pub record Channels : Type 0 where
  pub stream : DeliveryPending
  pub workflow : DeliveryPending
  pub run : DeliveryPending

pub data Pressure : Type 0 where
  normal warning critical : Pressure

-- The events of a bus: `delivery.recovered`, `.warning`, `.critical`, `.persistence_failed` and
-- `.background_failed`.
pub data Notice : Type 0 where
  state_is : Pressure → Notice
  persistence_failed : Notice
  background_failed : Bool → Notice

pub data Gauge : Type 0 where
  pending_bytes pending_events max_pending admission_blocked persistence_healthy pressure_critical :
      Gauge
  channel_bytes channel_events : ℕ → Gauge

-- `background_failures` has true for the workflow engine and false for the scheduler; `log` has what
-- was emitted to which bus and `gauges` what was set, the last first.
pub record Capacity : Type 0 where
  pub max_pending_bytes : ℕ
  pub state : Pressure
  pub healthy : Bool
  pub buses : List ℕ
  pub metrics : List ℕ
  pub background_failures : List Bool
  pub log : List (ℕ × Notice)
  pub gauges : List (ℕ × Gauge × ℕ)

abbrev pub total_bytes : Channels → ℕ
total_bytes c = c.stream.bytes + c.workflow.bytes + c.run.bytes

abbrev pub total_count : Channels → ℕ
total_count c = c.stream.count + c.workflow.count + c.run.count

-- `Math.ceil(max * 0.8)`, which the rounding of 0.8 does not change below 2^50.
abbrev pub warning_bytes : ℕ → ℕ
warning_bytes max_bytes = (4 * max_bytes + 4) / 5

abbrev pub pressure_of : ℕ → ℕ → Pressure
pressure_of max_bytes bytes =
    if leb max_bytes bytes
    then critical
    else if leb (warning_bytes max_bytes) bytes
    then warning
    else normal
