-- ===== src/Sensors/Manager/Composites.antt =====
-- SensorManager.cpp: RegisterCompositeSensor and RegisterComposites.
use android_hardware_mainlin.Prelude.{
  ℕ, suc, List, [], ◌∷◌, ◌++◌, Option, none, some, if◌then◌else◌, any_of,
}
use android_hardware_mainlin.Sensors.SensorType.{SensorType, same_type}
use android_hardware_mainlin.Sensors.Manager.State.{
  HardwareSensor, CompositeSensor, CompositeMethods, Manager, modify,
}

-- The first sensor of a type in the order of the handles.
unfoldable pub find_type : SensorType → List (ℕ × HardwareSensor) → Option ℕ
find_type t [] = none
find_type t ((h, hw) ∷ m) = if same_type hw.info.type t then some h else find_type t m

-- One handle for each input type, or nothing if a type is not there.
unfoldable pub find_inputs : List SensorType → List (ℕ × HardwareSensor) → Option (List ℕ)
find_inputs [] m = some []
find_inputs (t ∷ ts) m = elim (find_type t m) [
  | none ↦ none
  | some h ↦ elim (find_inputs ts m) [ none ↦ none | some hs ↦ some (h ∷ hs) ]
]

abbrev subscribe : ℕ → HardwareSensor → HardwareSensor
subscribe h hw = record hw { composite_subscribers = hw.composite_subscribers ++ h ∷ [] }

unfoldable pub subscribe_all : ℕ → List ℕ → List (ℕ × HardwareSensor) → List (ℕ × HardwareSensor)
subscribe_all h [] m = m
subscribe_all h (input ∷ inputs) m = subscribe_all h inputs (modify input (subscribe h) m)

module _ {S : Type 0} where
  unfoldable pub register_composite_sensor : CompositeSensor S → Manager S → Manager S
  register_composite_sensor sensor m =
      if m.initialized
      then m
      else record m { pending_composites = m.pending_composites ++ sensor ∷ [] }

  add_composite : CompositeSensor S → List ℕ → Manager S → Manager S
  add_composite sensor inputs m =
      let placed = record sensor { info = record sensor.info { sensor_handle = m.next_handle } } in
      record m {
        next_handle = suc m.next_handle;
        hardware = subscribe_all m.next_handle inputs m.hardware;
        composites =
            m.composites
            ++ record { handle = m.next_handle; sensor = placed; input_handles = inputs } ∷ [];
      }

  unfoldable pub register_composite : CompositeMethods S → CompositeSensor S → Manager S → Manager S
  unfolding add_composite
  register_composite methods sensor m =
      if any_of (λ entry. same_type entry.1.info.type sensor.info.type) m.hardware
      then m
      else elim (find_inputs (methods.get_input_sensor_types sensor.inner) m.hardware) [
        | none ↦ m
        | some inputs ↦ add_composite sensor inputs m
      ]

  unfoldable pub register_each :
      CompositeMethods S → List (CompositeSensor S) → Manager S → Manager S
  register_each methods [] m = m
  register_each methods (sensor ∷ sensors) m =
      register_each methods sensors (register_composite methods sensor m)

  unfoldable pub register_composites : CompositeMethods S → Manager S → Manager S
  register_composites methods m = record (register_each methods m.pending_composites m) {
    pending_composites = [];
  }
