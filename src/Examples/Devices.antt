-- ===== src/Examples/Devices.antt =====
-- The theorems about sensor types, the wake lock and the device orientation at concrete inputs.
use android_hardware_mainlin.Prelude.{
  ℕ, ◌≡◌, refl, inr, true, false, [], ◌∷◌, arith, ltb, leb, ℤ, pos, negsuc, codes, nat_key,
  bytes_key,
}
use android_hardware_mainlin.Sensors.SensorType.{accelerometer, proximity}
use android_hardware_mainlin.Sensors.SensorTypes.Traits.{SensorInfo}
use android_hardware_mainlin.Sensors.SensorTypes.Modes.{
  get_reporting_mode, get_reporting_mode_flags, get_reporting_mode-flags, reporting_mode_of,
  get_sensor_type_traits, is_wake_up_sensor,
}
use android_hardware_mainlin.Sensors.SensorTypes.Defaults.{
  apply_sensor_type_defaults, apply_sensor_type_defaults_flags, wakes_by_default, SameIdentity,
}
use android_hardware_mainlin.Sensors.SensorTypes.Clamp.{
  clamp_sampling_period_ns, InRange, clamp_sampling_period_ns-InRange,
}
use android_hardware_mainlin.Sensors.Events.{Event, vec3}
use android_hardware_mainlin.Sensors.Manager.State.{CompositeSensor}
use android_hardware_mainlin.Sensors.EventDispatcher.{
  Dispatcher, Answers, Descriptors, new_dispatcher, update_wake_lock, wake_lock_thread,
}
use android_hardware_mainlin.Sensors.EventDispatcher.WakeLock.{
  turns, update_wake_lock-held, turn-deadline,
}
use android_hardware_mainlin.Sensors.EventDispatcher.Traces.{
  initialize_queues, post, turn, run, IsSound, run-IsSound,
}
use android_hardware_mainlin.Sensors.DeviceOrientation.{FloatMath, Orientation, identity}
use android_hardware_mainlin.Sensors.DeviceOrientation.Spacing.{
  outputs, SpacedAfterFirst, reports-Spaced,
}
use android_hardware_mainlin.Examples.Library.{sample_bits, sample_bits-IsLayout}

abbrev pub sample_info : SensorInfo
sample_info = record {
  sensor_handle = 5;
  name = codes "Accelerometer";
  vendor = codes "Acme";
  version = 1;
  type = accelerometer;
  type_as_string = [];
  max_range = 0;
  resolution = 0;
  min_delay_us = pos 10000;
  power = 0;
  fifo_reserved_event_count = 0;
  fifo_max_event_count = 0;
  required_permission = [];
  max_delay_us = pos 1000000;
  flags = 1;
}

clamp_sampling_period_ns-InRange_example :
    InRange sample_info (clamp_sampling_period_ns sample_info (pos 1))
clamp_sampling_period_ns-InRange_example =
    clamp_sampling_period_ns-InRange sample_info (pos 1) (inr (omega arith))

get_reporting_mode-flags_example :
    get_reporting_mode sample_bits (get_reporting_mode_flags sample_bits proximity)
    ≡ reporting_mode_of (get_sensor_type_traits proximity)
get_reporting_mode-flags_example =
    get_reporting_mode-flags sample_bits sample_bits-IsLayout proximity

apply_sensor_type_defaults_flags_example :
    let done = apply_sensor_type_defaults sample_bits sample_info in
    let row = get_sensor_type_traits accelerometer in
    (get_reporting_mode sample_bits done.flags ≡ reporting_mode_of row)
    × (is_wake_up_sensor sample_bits done.flags ≡ wakes_by_default row)
    × SameIdentity done sample_info
apply_sensor_type_defaults_flags_example =
    apply_sensor_type_defaults_flags sample_bits sample_bits-IsLayout sample_info

abbrev pub sample_event : ℤ → Event
sample_event now = record {
  sensor_handle = 1;
  sensor_type = accelerometer;
  timestamp = now;
  payload = vec3 0 1 2 3;
}

abbrev pub succeeds : ℕ → Answers
succeeds now = record { acquired = true; released = true; accepted = true; now = now }

abbrev pub good_queues : Descriptors
good_queues = record { event_queue_valid = true; wake_lock_queue_valid = true; flag_created = true }

new_dispatcher-IsSound : IsSound new_dispatcher
new_dispatcher-IsSound = record {
  bounded = omega arith;
  held = λ e. absurd (ground arith);
  queue = λ e. absurd (ground arith);
  both = refl;
  flag = refl;
}

run-IsSound_example : IsSound (
    run 1000
      (initialize_queues good_queues (succeeds 0)
        ∷ post (sample_event (pos 7) ∷ []) true (succeeds 1)
        ∷ turn (pos 1) (succeeds 2)
        ∷ [])
      new_dispatcher)
run-IsSound_example =
    run-IsSound 1000
      (initialize_queues good_queues (succeeds 0)
        ∷ post (sample_event (pos 7) ∷ []) true (succeeds 1)
        ∷ turn (pos 1) (succeeds 2)
        ∷ [])
      new_dispatcher new_dispatcher-IsSound

update_wake_lock-held_example :
    (update_wake_lock 1000 (succeeds 5) (pos 3) (pos 1) new_dispatcher).has_wake_lock
    ≡ ltb 0
        (update_wake_lock 1000
          (succeeds 5)
          (pos 3)
          (pos 1)
          new_dispatcher).outstanding_wake_up_events
update_wake_lock-held_example =
    update_wake_lock-held 1000 (succeeds 5) (pos 3) (pos 1) new_dispatcher refl refl

-- A dispatcher that holds the lock for two events until time 1000.
abbrev holding : Dispatcher
holding = record new_dispatcher {
  event_queue = true;
  wake_lock_queue = true;
  event_queue_flag = true;
  wake_lock_thread_run = true;
  has_wake_lock = true;
  outstanding_wake_up_events = 2;
  auto_release_time = 1000;
}

turn-deadline_example :
    (wake_lock_thread 1000 (succeeds 1001) (pos 0) (turns 1000 [] holding)).has_wake_lock
    ≡ leb 1001 holding.auto_release_time
turn-deadline_example =
    turn-deadline 1000 [] (succeeds 1001) holding refl refl refl (omega arith) (omega arith)

-- An arithmetic where everything is zero, so the rotation is 0.
abbrev zero_math : FloatMath
zero_math = record {
  add = λ a b. 0;
  sub = λ a b. 0;
  mul = λ a b. 0;
  div = λ a b. 0;
  sqrt = λ a. 0;
  atan2 = λ a b. 0;
  fabs = λ a. 0;
  lround = λ a. pos 0;
  less = λ a b. false;
  of_int = λ n. 0;
}

abbrev active_sensor : CompositeSensor Orientation
active_sensor = record {
  info = sample_info;
  active = true;
  period_ns = pos 0;
  inner = record {
    workaround_matrix = identity;
    rotation_offset = pos 0;
    reported_rotation = negsuc 0;
    candidate_rotation = negsuc 0;
    candidate_since_ns = pos 0;
  };
}

reports-Spaced_example :
    SpacedAfterFirst
      (outputs zero_math active_sensor (sample_event (pos 1) ∷ sample_event (pos 2) ∷ []))
reports-Spaced_example =
    reports-Spaced zero_math (pos 0) active_sensor
      (sample_event (pos 1) ∷ sample_event (pos 2) ∷ []) refl (omega arith, (omega arith, tt))
