-- ===== src/Sensors/Events.antt =====
-- interfaces/sensors/mainline/utils/common/SensorEvents.cpp: the AIDL event, as far as the sources
-- name its parts, and the functions that build and test events. Floats are binary32 patterns.
use android_hardware_mainlin.Prelude.{ℕ, Bool, true, false, ℤ, pos, ◌&&◌}
use android_hardware_mainlin.Sensors.SensorType.{SensorType, meta_data, step_counter, same_type}

pub data MetaDataEventType : Type 0 where
  flush_complete : MetaDataEventType
  other_meta : ℕ → MetaDataEventType

-- The alternatives of Event::EventPayload that the sources build or read; `other_payload` is any other.
pub data EventPayload : Type 0 where
  vec3 : ℕ → ℕ → ℕ → ℕ → EventPayload
  vec4 : ℕ → ℕ → ℕ → ℕ → EventPayload
  scalar : ℕ → EventPayload
  step_count : ℤ → EventPayload
  meta : MetaDataEventType → EventPayload
  other_payload : ℕ → EventPayload

pub record Event : Type 0 where
  pub sensor_handle : ℕ
  pub sensor_type : SensorType
  pub timestamp : ℤ
  pub payload : EventPayload

unfoldable pub make_event : ℕ → SensorType → ℤ → EventPayload → Event
make_event handle type timestamp payload = record {
  sensor_handle = handle;
  sensor_type = type;
  timestamp = timestamp;
  payload = payload;
}

unfoldable pub make_vec3_event : ℕ → SensorType → ℤ → ℕ → ℕ → ℕ → ℕ → Event
unfolding make_event
make_vec3_event handle type timestamp x y z status =
    make_event handle type timestamp (vec3 x y z status)

unfoldable pub make_scalar_event : ℕ → SensorType → ℤ → ℕ → Event
unfolding make_event
make_scalar_event handle type timestamp value = make_event handle type timestamp (scalar value)

unfoldable pub make_step_count_event : ℕ → ℤ → ℤ → Event
unfolding make_event
make_step_count_event handle timestamp steps =
    make_event handle step_counter timestamp (step_count steps)

unfoldable pub make_vec4_event : ℕ → SensorType → ℤ → ℕ → ℕ → ℕ → ℕ → Event
unfolding make_event
make_vec4_event handle type timestamp x y z w = make_event handle type timestamp (vec4 x y z w)

unfoldable pub make_flush_complete_event : ℕ → Event
unfolding make_event
make_flush_complete_event handle = make_event handle meta_data (pos 0) (meta flush_complete)

abbrev is_flush_payload : EventPayload → Bool
is_flush_payload (meta flush_complete) = true
is_flush_payload _ = false

unfoldable pub is_flush_complete_event : Event → Bool
is_flush_complete_event event =
    same_type event.sensor_type meta_data && is_flush_payload event.payload
