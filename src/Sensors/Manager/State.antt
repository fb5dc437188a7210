-- ===== src/Sensors/Manager/State.antt =====
-- SensorManager.h: the state of the manager. The backends are loaded at run time, so what they answer
-- is a function of the calls made so far. A handle is the pattern of an int32_t.
use android_hardware_mainlin.Prelude.{
  ℕ, ◌≡◌, refl, Bool, List, [], ◌∷◌, Option, none, some, Bytes, ℤ, negsuc, ◌==◌, if◌then◌else◌,
  lookup, nat_key, arith,
}
use android_hardware_mainlin.Sensors.SensorType.{SensorType}
use android_hardware_mainlin.Sensors.SensorTypes.Traits.{SensorInfo}
use android_hardware_mainlin.Sensors.Events.{Event}

pub data OperationMode : Type 0 where
  normal data_injection : OperationMode

-- The negated errno values that the manager returns.
abbrev pub einval : ℤ
einval = negsuc 21

abbrev pub enotsup : ℤ
enotsup = negsuc 94

-- kFlushHandledByFrontend of SensorBackend.h.
abbrev pub flush_handled_by_frontend : ℤ
flush_handled_by_frontend = negsuc 999

-- A method of ISensorBackend that the manager calls, with the backend's index.
pub data Call : Type 0 where
  initialize : ℕ → Call
  deinitialize : ℕ → Call
  activate : ℕ → ℕ → Bool → Call
  batch : ℕ → ℕ → ℤ → ℤ → Call
  flush : ℕ → ℕ → Call
  set_operation_mode : ℕ → OperationMode → Call

-- The calls made so far with what they returned, newest first.
abbrev pub Log : Type 0
Log = List (Call × ℤ)

-- The loaded backends. Nothing is assumed of what they answer.
pub record Backends : Type 0 where
  pub respond : Log → Call → ℤ
  pub sensors_list : Log → ℕ → List SensorInfo
  pub get_name : ℕ → Bytes

pub record BackendEntry : Type 0 where
  pub fallback_only : Bool
  pub initialized : Bool
  pub local_to_global : List (ℕ × ℕ)

pub record HardwareSensor : Type 0 where
  pub handle : ℕ
  pub backend_index : ℕ
  pub local_handle : ℕ
  pub info : SensorInfo
  pub client_active : Bool
  pub client_period_ns : ℤ
  pub client_latency_ns : ℤ
  pub composite_periods : List (ℕ × ℤ)
  pub backend_active : Bool
  pub backend_period_ns : ℤ
  pub backend_latency_ns : ℤ
  pub composite_subscribers : List ℕ

-- composite/CompositeSensor.h: what CompositeSensorBase holds, with the state of the subclass.
pub record CompositeSensor (S : Type 0) : Type 0 where
  pub info : SensorInfo
  pub active : Bool
  pub period_ns : ℤ
  pub inner : S

-- The virtual methods of ICompositeSensor that a subclass gives.
pub record CompositeMethods (S : Type 0) : Type 0 where
  pub get_input_sensor_types : S → List SensorType
  pub get_input_sampling_period_ns : S → ℤ
  pub on_activate : Bool → S → S
  pub process_event : CompositeSensor S → Event → S × List Event

pub record CompositeEntry (S : Type 0) : Type 0 where
  pub handle : ℕ
  pub sensor : CompositeSensor S
  pub input_handles : List ℕ

-- `hardware` is in the order of its keys, as std::map iterates, since handles are given out in
-- increasing order. `delivered` is what the sink was called with, newest first.
pub record Manager (S : Type 0) : Type 0 where
  pub backends : List BackendEntry
  pub hardware : List (ℕ × HardwareSensor)
  pub composites : List (CompositeEntry S)
  pub pending_composites : List (CompositeSensor S)
  pub next_handle : ℕ
  pub has_sink : Bool
  pub mode : OperationMode
  pub initialized : Bool
  pub calls : Log
  pub delivered : List (List Event × Bool)

-- A write through the pointer that FindHardware returned.
abbrev pub modify :
    ℕ → (HardwareSensor → HardwareSensor) → List (ℕ × HardwareSensor) → List (ℕ × HardwareSensor)
modify h f [] = []
modify h f ((j, hw) ∷ m) = if j == h then (j, f hw) ∷ m else (j, hw) ∷ modify h f m

pub lookup-modify :
    (h j : ℕ) (f : HardwareSensor → HardwareSensor) (m : List (ℕ × HardwareSensor))
    → lookup j (modify h f m)
      ≡ (elim (lookup j m) [ none ↦ none | some hw ↦ some (if h == j then f hw else hw) ])
lookup-modify h j f [] = refl
lookup-modify h j f ((i, hw) ∷ m) = ground (arith, lookup-modify h j f m)

module _ {S : Type 0} where
  unfoldable pub find_hardware : ℕ → Manager S → Option HardwareSensor
  find_hardware h m = lookup h m.hardware

  unfoldable pub modify_hardware : ℕ → (HardwareSensor → HardwareSensor) → Manager S → Manager S
  modify_hardware h f m = record m { hardware = modify h f m.hardware }

  abbrev pub find_entry : ℕ → List (CompositeEntry S) → Option (CompositeEntry S)
  find_entry h [] = none
  find_entry h (c ∷ cs) = if c.handle == h then some c else find_entry h cs

  unfoldable pub find_composite : ℕ → Manager S → Option (CompositeEntry S)
  find_composite h m = find_entry h m.composites

  -- A write through the pointer that FindComposite returned.
  abbrev pub modify_entry :
      ℕ
      → (CompositeSensor S → CompositeSensor S)
      → List (CompositeEntry S)
      → List (CompositeEntry S)
  modify_entry h f [] = []
  modify_entry h f (c ∷ cs) =
      if c.handle == h then record c { sensor = f c.sensor } ∷ cs else c ∷ modify_entry h f cs

  unfoldable pub modify_composite :
      ℕ → (CompositeSensor S → CompositeSensor S) → Manager S → Manager S
  modify_composite h f m = record m { composites = modify_entry h f m.composites }

  -- One call of a backend.
  unfoldable pub call : Backends → Call → Manager S → ℤ × Manager S
  call env c m = let r = env.respond m.calls c in (r, record m { calls = (c, r) ∷ m.calls })
