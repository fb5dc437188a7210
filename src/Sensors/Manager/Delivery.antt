-- ===== src/Sensors/Manager/Delivery.antt =====
-- SensorManager.cpp: OnBackendEvents, GetSensorsList and GetSensorInfo. A callback of a backend runs
-- under state_mutex_ up to the call of the sink, so it is one step.
use android_hardware_mainlin.Prelude.{
  ℕ, Bool, false, not, ◌&&◌, ◌||◌, Option, none, some, List, [], ◌∷◌, ◌++◌, map, if◌then◌else◌,
  get_elem?, is_empty, nat_key, bytes_key, lookup,
}
use android_hardware_mainlin.Sensors.SensorType.{same_type, meta_data}
use android_hardware_mainlin.Sensors.SensorTypes.Traits.{SensorInfo}
use android_hardware_mainlin.Sensors.SensorTypes.Modes.{FlagBits, is_wake_up_sensor}
use android_hardware_mainlin.Sensors.Events.{Event}
use android_hardware_mainlin.Sensors.Manager.State.{
  HardwareSensor, CompositeMethods, CompositeEntry, Manager, find_hardware, find_composite,
  modify_composite,
}
use android_hardware_mainlin.Sensors.Manager.Requests.{is_data_injection, deliver}

module _ {S : Type 0} where
  unfoldable pub get_sensors_list : Manager S → List SensorInfo
  get_sensors_list m =
      map (λ entry. entry.1.info) m.hardware ++ map (λ c. c.sensor.info) m.composites

  unfoldable pub get_sensor_info : ℕ → Manager S → Option SensorInfo
  get_sensor_info h m = elim (find_hardware h m) [
    | some hw ↦ some hw.info
    | none ↦ elim (find_composite h m) [ some c ↦ some c.sensor.info | none ↦ none ]
  ]

-- What the loop has gathered: `out`, `wake` and the composite sensors that have seen the events.
pub record Gathered (S : Type 0) : Type 0 where
  pub out : List Event
  pub wake : Bool
  pub manager : Manager S

module _ {S : Type 0} (methods : CompositeMethods S) (b : FlagBits) where
  -- One composite sensor that is active sees the event; each derived event may wake.
  feed_active : CompositeEntry S → Event → Gathered S → Gathered S
  feed_active c event g =
      let (inner, derived) = methods.process_event c.sensor event in
      record {
        out = g.out ++ derived;
        wake = g.wake || (not (is_empty derived) && is_wake_up_sensor b c.sensor.info.flags);
        manager = modify_composite c.handle (λ x. record x { inner = inner }) g.manager;
      }

  unfoldable pub feed_one : ℕ → Event → Gathered S → Gathered S
  unfolding feed_active
  feed_one h event g = elim (find_composite h g.manager) [
    | none ↦ g
    | some c ↦ if c.sensor.active then feed_active c event g else g
  ]

  unfoldable pub feed_composites : List ℕ → Event → Gathered S → Gathered S
  feed_composites [] event g = g
  feed_composites (h ∷ hs) event g = feed_composites hs event (feed_one h event g)

  unfoldable pub forward : Bool → HardwareSensor → Event → Gathered S → Gathered S
  forward wakeup hw event g =
      if hw.client_active
      then record g {
        out = g.out ++ event ∷ [];
        wake = g.wake || wakeup || is_wake_up_sensor b hw.info.flags;
      }
      else g

  -- The body of the loop for an event whose sensor is known.
  unfoldable pub take_event : Bool → HardwareSensor → Event → Gathered S → Gathered S
  take_event wakeup hw event g = forward wakeup hw event (
      if same_type event.sensor_type meta_data
      then g
      else feed_composites hw.composite_subscribers event g)

  unfoldable pub remap_event : ℕ → Event → Event
  remap_event h event = record event { sensor_handle = h }

  unfoldable pub gather_event : List (ℕ × ℕ) → Bool → Event → Gathered S → Gathered S
  gather_event mapping wakeup event g = elim (lookup event.sensor_handle mapping) [
    | none ↦ g
    | some h ↦ elim (find_hardware h g.manager) [
      | none ↦ g
      | some hw ↦ take_event wakeup hw (remap_event h event) g
    ]
  ]

  unfoldable pub gather : List (ℕ × ℕ) → Bool → List Event → Gathered S → Gathered S
  gather mapping wakeup [] g = g
  gather mapping wakeup (event ∷ events) g =
      gather mapping wakeup events (gather_event mapping wakeup event g)

  unfoldable pub on_backend_events : ℕ → List Event → Bool → Manager S → Manager S
  on_backend_events i events wakeup m = elim (get_elem? m.backends i) [
    | none ↦ m
    | some entry ↦
        let g =
          gather entry.local_to_global wakeup events
            (record { out = []; wake = false; manager = m }) in
        if is_data_injection m.mode then m else deliver g.out g.wake g.manager
  ]
