-- ===== src/Sensors/Manager/Requests.antt =====
-- SensorManager.cpp: Deliver, Activate, ActivateComposite, Batch, Flush, SetOperationMode,
-- InjectEvent and DeactivateAll. control_mutex_ makes each one step.
use android_hardware_mainlin.Prelude.{
  ℕ, suc, bit_and, Bool, true, false, not, ◌&&◌, ◌||◌, none, some, List, [], ◌∷◌, ◌==◌,
  if◌then◌else◌, is_empty, any_of, ℤ, pos, ltb_ℤ, ◌==ℤ◌, nat_key, bytes_key, insert, erase,
}
use android_hardware_mainlin.Sensors.SensorType.{same_type, additional_info}
use android_hardware_mainlin.Sensors.SensorTypes.Traits.{SensorInfo}
use android_hardware_mainlin.Sensors.SensorTypes.Modes.{
  FlagBits, is_one_shot_sensor, is_wake_up_sensor,
}
use android_hardware_mainlin.Sensors.SensorTypes.Clamp.{clamp_sampling_period_ns}
use android_hardware_mainlin.Sensors.Events.{Event, make_flush_complete_event}
use android_hardware_mainlin.Sensors.Manager.State.{
  Backends, BackendEntry, HardwareSensor, CompositeSensor, CompositeMethods, CompositeEntry,
  Manager, OperationMode, normal, data_injection, Call, einval, enotsup, flush_handled_by_frontend,
  call, find_hardware, modify_hardware, find_composite, modify_composite,
}
use android_hardware_mainlin.Sensors.Manager.Apply.{bool_eq, apply_hardware_state}

abbrev pub is_data_injection : OperationMode → Bool
is_data_injection normal = false
is_data_injection data_injection = true

abbrev pub injectable : FlagBits → SensorInfo → Bool
injectable b info = not (bit_and info.flags b.data_injection == 0)

-- One round of the loop that adds or drops the period of a composite sensor at an input.
unfoldable pub set_period : ℕ → Bool → ℤ → HardwareSensor → HardwareSensor
set_period composite enabled period hw = record hw {
  composite_periods =
      if enabled
      then insert composite period hw.composite_periods
      else erase composite hw.composite_periods;
}

abbrev pub clear_requests : HardwareSensor → HardwareSensor
clear_requests hw = record hw { client_active = false; composite_periods = [] }

unfoldable pub drop_requests : List (ℕ × HardwareSensor) → List (ℕ × HardwareSensor)
drop_requests [] = []
drop_requests ((h, hw) ∷ m) = (h, clear_requests hw) ∷ drop_requests m

-- The handles of the sensors that a backend has running.
unfoldable pub running : List (ℕ × HardwareSensor) → List ℕ
running [] = []
running ((h, hw) ∷ m) = let rest = running m in if hw.backend_active then h ∷ rest else rest

module _ {S : Type 0} where
  unfoldable pub set_event_sink : Bool → Manager S → Manager S
  set_event_sink present m = record m { has_sink = present }

  -- The sink is called outside the lock, with what is not empty.
  unfoldable pub deliver : List Event → Bool → Manager S → Manager S
  deliver events wakeup m =
      if is_empty events
      then m
      else (if m.has_sink then record m { delivered = (events, wakeup) ∷ m.delivered } else m)

  unfoldable pub flush_composite : FlagBits → ℕ → CompositeEntry S → Manager S → ℤ × Manager S
  flush_composite b h c m =
      if c.sensor.active
      then (
        pos 0,
        deliver (make_flush_complete_event h ∷ []) (is_wake_up_sensor b c.sensor.info.flags) m,
      )
      else (einval, m)

  unfoldable pub supports_data_injection : FlagBits → Manager S → Bool
  supports_data_injection b m = any_of (λ entry. injectable b entry.1.info) m.hardware

  unfoldable pub inject_found : FlagBits → Event → HardwareSensor → Manager S → ℤ × Manager S
  inject_found b event hw m =
      if injectable b hw.info
      then (if is_data_injection m.mode
          then (pos 0, deliver (event ∷ []) (is_wake_up_sensor b hw.info.flags) m)
          else (einval, m))
      else (enotsup, m)

  unfoldable pub inject_event : FlagBits → Event → Manager S → ℤ × Manager S
  unfolding inject_found
  inject_event b event m =
      if same_type event.sensor_type additional_info
      then (pos 0, m)
      else elim (find_hardware event.sensor_handle m) [
        | none ↦ (einval, m)
        | some hw ↦ inject_found b event hw m
      ]

module _ {S : Type 0} where
  unfoldable pub set_periods : ℕ → Bool → ℤ → List ℕ → Manager S → Manager S
  set_periods composite enabled period [] m = m
  set_periods composite enabled period (input ∷ inputs) m =
      set_periods composite enabled period inputs
        (modify_hardware input (set_period composite enabled period) m)

module _ {S : Type 0} (env : Backends) where
  -- The loop over the backends: the last failure is the result.
  unfoldable pub set_modes : OperationMode → ℕ → List BackendEntry → ℤ → Manager S → ℤ × Manager S
  set_modes mode i [] ret m = (ret, m)
  set_modes mode i (entry ∷ entries) ret m =
      let (r, m') = call env (Call.set_operation_mode i mode) m in
      let ret' = if r ==ℤ pos 0 then ret else r in
      set_modes mode (suc i) entries (if entry.initialized then ret' else ret)
        (if entry.initialized then m' else m)

  unfoldable pub set_operation_mode : FlagBits → OperationMode → Manager S → ℤ × Manager S
  set_operation_mode b mode m =
      if is_data_injection mode && not (supports_data_injection b m)
      then (enotsup, m)
      else set_modes mode 0 m.backends (pos 0) (record m { mode = mode })

  -- The calls of ApplyHardwareState for the inputs of a composite sensor: the last failure is kept.
  unfoldable pub apply_inputs : List ℕ → ℤ → Manager S → ℤ × Manager S
  apply_inputs [] ret m = (ret, m)
  apply_inputs (input ∷ inputs) ret m =
      let (r, m') = apply_hardware_state env input m in
      apply_inputs inputs (if r ==ℤ pos 0 then ret else r) m'

  unfoldable pub activate_hardware : ℕ → Bool → HardwareSensor → Manager S → ℤ × Manager S
  activate_hardware h enabled hw m =
      let (ret, m') =
        apply_hardware_state env h
          (modify_hardware h (λ x. record x { client_active = enabled }) m) in
      if bool_eq hw.client_active enabled
      then (pos 0, m)
      else (if not (ret ==ℤ pos 0) && enabled
          then (ret, modify_hardware h (λ x. record x { client_active = false }) m')
          else (ret, m'))

  unfoldable pub batch_hardware : ℕ → ℤ → ℤ → HardwareSensor → Manager S → ℤ × Manager S
  batch_hardware h period latency hw m =
      if ltb_ℤ period (pos 0) || ltb_ℤ latency (pos 0)
      then (einval, m)
      else (let m' =
            modify_hardware h
              (λ x. record x {
                client_period_ns = clamp_sampling_period_ns hw.info period;
                client_latency_ns = latency;
              })
              m in
          if hw.client_active then apply_hardware_state env h m' else (pos 0, m'))

  -- A composite sensor only notes the period (CompositeSensorBase::Batch).
  unfoldable pub batch : ℕ → ℤ → ℤ → Manager S → ℤ × Manager S
  unfolding batch_hardware
  batch h period latency m = elim (find_composite h m) [
    | some c ↦ (pos 0, modify_composite h (λ x. record x { period_ns = period }) m)
    | none ↦ elim (find_hardware h m) [
      | none ↦ (einval, m)
      | some hw ↦ batch_hardware h period latency hw m
    ]
  ]

  unfoldable pub flush_hardware : FlagBits → ℕ → HardwareSensor → Manager S → ℤ × Manager S
  flush_hardware b h hw m =
      if not hw.client_active || is_one_shot_sensor b hw.info.flags
      then (einval, m)
      else (let (r, m') = call env (Call.flush hw.backend_index hw.local_handle) m in
          if r ==ℤ flush_handled_by_frontend
          then (
            pos 0,
            deliver (make_flush_complete_event h ∷ []) (is_wake_up_sensor b hw.info.flags) m',
          )
          else (r, m'))

  unfoldable pub flush : FlagBits → ℕ → Manager S → ℤ × Manager S
  unfolding flush_hardware flush_composite
  flush b h m = elim (find_composite h m) [
    | some c ↦ flush_composite b h c m
    | none ↦ elim (find_hardware h m) [ none ↦ (einval, m) | some hw ↦ flush_hardware b h hw m ]
  ]

module _ {S : Type 0} (methods : CompositeMethods S) where
  -- ICompositeSensor::Activate of a subclass of CompositeSensorBase.
  unfoldable pub activate_sensor : Bool → CompositeSensor S → CompositeSensor S
  activate_sensor enabled c = record c {
    active = enabled;
    inner = methods.on_activate enabled c.inner;
  }

  unfoldable pub activate_composite : Backends → CompositeEntry S → Bool → Manager S → ℤ × Manager S
  activate_composite env c enabled m =
      let sensor = activate_sensor enabled c.sensor in
      let period = methods.get_input_sampling_period_ns sensor.inner in
      let m' =
        set_periods c.handle enabled period c.input_handles
          (modify_composite c.handle (λ x. sensor) m) in
      if bool_eq c.sensor.active enabled
      then (pos 0, m)
      else apply_inputs env c.input_handles (pos 0) m'

  unfoldable pub activate : Backends → ℕ → Bool → Manager S → ℤ × Manager S
  activate env h enabled m = elim (find_composite h m) [
    | some c ↦ activate_composite env c enabled m
    | none ↦ elim (find_hardware h m) [
      | none ↦ (einval, m)
      | some hw ↦ activate_hardware env h enabled hw m
    ]
  ]

  abbrev deactivate_entry : CompositeEntry S → CompositeEntry S
  deactivate_entry c =
      if c.sensor.active then record c { sensor = activate_sensor false c.sensor } else c

  -- The first loops of DeactivateAll: all requests are dropped.
  unfoldable pub drop_composites : List (CompositeEntry S) → List (CompositeEntry S)
  drop_composites [] = []
  drop_composites (c ∷ cs) = deactivate_entry c ∷ drop_composites cs

  unfoldable pub deactivate_all : Backends → Manager S → Manager S
  deactivate_all env m =
      let m' = record m {
        composites = drop_composites m.composites;
        hardware = drop_requests m.hardware;
      } in
      (apply_inputs env (running m.hardware) (pos 0) m').1
