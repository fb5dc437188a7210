-- ===== src/Sensors/Service/Reinitialize.antt =====
-- The requests after DeactivateAll of SensorManager.cpp and after initialize of Sensors.cpp.
use android_hardware_mainlin.Prelude.{
  ℕ, ◌≡◌, refl, sym, subst, inl, inr, Bool, true, false, some, List, [], ◌∷◌, ◌==◌, if◌then◌else◌,
  Bool-cases, Option-cases, ℤ, pos, ◌==ℤ◌, nat_key, bytes_key,
}
use android_hardware_mainlin.Sensors.SensorTypes.Modes.{FlagBits}
use android_hardware_mainlin.Sensors.EventDispatcher.{Descriptors, Answers}
use android_hardware_mainlin.Sensors.Manager.State.{
  Backends, CompositeMethods, Manager, HardwareSensor, find_hardware, modify_hardware, call,
}
use android_hardware_mainlin.Sensors.Manager.Apply.{
  apply_batch, apply_activate, apply_found, apply_hardware_state, need_batch, need_activate,
}
use android_hardware_mainlin.Sensors.Manager.Requests.{apply_inputs, deactivate_all, running}
use android_hardware_mainlin.Sensors.Manager.Step.{lookup-drop_requests}
use android_hardware_mainlin.Sensors.Manager.Protocol.{modified}
use android_hardware_mainlin.Sensors.Manager.State.{Call}
use android_hardware_mainlin.Sensors.Manager.Apply.{desired_period, desired_latency, desired_active}
use android_hardware_mainlin.Sensors.Service.{Service, initialize_service}

-- No request of the framework or of a composite sensor.
abbrev pub IsIdle : HardwareSensor → Type 0
IsIdle hw = (hw.client_active ≡ false) × (hw.composite_periods ≡ [])

pub record AllIdle {S : Type 0} (m : Manager S) : Type 0 where
  pub idle : (h : ℕ) (hw : HardwareSensor) → find_hardware h m ≡ some hw → IsIdle hw

if-IsIdle : (c : Bool) (x y : HardwareSensor) → IsIdle x → IsIdle y → IsIdle (if c then x else y)
if-IsIdle true x y i j = i
if-IsIdle false x y i j = j

modify-AllIdle :
    {S : Type 0} (h : ℕ) (f : HardwareSensor → HardwareSensor) (m : Manager S)
    → ((x : HardwareSensor) → IsIdle x → IsIdle (f x))
    → AllIdle m
    → AllIdle (modify_hardware h f m)
unfolding modify_hardware find_hardware
modify-AllIdle h f m keep a = record {
  idle = λ j y e.
      let (x, found, same) = modified h j f m.hardware y e in
      subst IsIdle (sym same)
        (if-IsIdle (h == j) (f x) x (keep x (a.idle j x found)) (a.idle j x found));
}

module _ {S : Type 0} (env : Backends) where
  call-AllIdle : (c : Call) (m : Manager S) → AllIdle m → AllIdle (call env c m).1
  unfolding call find_hardware
  call-AllIdle c m a = record { idle = a.idle }

  apply_batch-AllIdle :
      (h : ℕ) (hw : HardwareSensor) (m : Manager S) → AllIdle m → AllIdle (apply_batch env h hw m).1
  unfolding apply_batch
  apply_batch-AllIdle h hw m a =
      elim (Bool-cases (
        (call env
          (Call.batch hw.backend_index hw.local_handle (desired_period hw) (desired_latency hw))
          m).0
        ==ℤ pos 0)) [
          | inl done ↦ rw done (
              modify-AllIdle h _ _ (λ x i. i)
                (call-AllIdle
                  (Call.batch hw.backend_index hw.local_handle (desired_period hw)
                    (desired_latency hw))
                  m a))
          | inr failed ↦ rw failed (
              call-AllIdle
                (Call.batch hw.backend_index hw.local_handle (desired_period hw)
                  (desired_latency hw))
                m a)
        ]

  apply_activate-AllIdle :
      (h : ℕ) (hw : HardwareSensor) (m : Manager S)
      → AllIdle m
      → AllIdle (apply_activate env h hw m).1
  unfolding apply_activate
  apply_activate-AllIdle h hw m a =
      elim (Bool-cases (
        (call env (Call.activate hw.backend_index hw.local_handle (desired_active hw)) m).0
        ==ℤ pos 0)) [
          | inl done ↦ rw done (
              modify-AllIdle h _ _ (λ x i. i)
                (call-AllIdle (Call.activate hw.backend_index hw.local_handle (desired_active hw)) m
                  a))
          | inr failed ↦ rw failed (
              call-AllIdle (Call.activate hw.backend_index hw.local_handle (desired_active hw)) m a)
        ]

  apply_found-AllIdle :
      (h : ℕ) (hw : HardwareSensor) (m : Manager S) → AllIdle m → AllIdle (apply_found env h hw m).1
  unfolding apply_found
  apply_found-AllIdle h hw m a = elim (Bool-cases (need_batch hw)) [
    | inl batches ↦ rw batches (elim (Bool-cases (need_activate hw)) [
      | inl activates ↦ rw activates (apply_activate-AllIdle h hw _ (apply_batch-AllIdle h hw m a))
      | inr stays ↦ rw stays (apply_batch-AllIdle h hw m a)
    ])
    | inr quiet ↦ rw quiet (elim (Bool-cases (need_activate hw)) [
      | inl activates ↦ rw activates (apply_activate-AllIdle h hw m a)
      | inr stays ↦ rw stays a
    ])
  ]

  apply_hardware_state-AllIdle :
      (h : ℕ) (m : Manager S) → AllIdle m → AllIdle (apply_hardware_state env h m).1
  unfolding apply_hardware_state
  apply_hardware_state-AllIdle h m a = elim (Option-cases (find_hardware h m)) [
    | inl missing ↦ rw (missing, apply_hardware_state) a
    | inr (hw, found) ↦ rw (found, apply_hardware_state) (apply_found-AllIdle h hw m a)
  ]

  apply_inputs-AllIdle :
      (hs : List ℕ) (ret : ℤ) (m : Manager S) → AllIdle m → AllIdle (apply_inputs env hs ret m).1
  unfolding apply_inputs
  apply_inputs-AllIdle [] ret m a = a
  apply_inputs-AllIdle (h ∷ hs) ret m a =
      apply_inputs-AllIdle hs _ _ (apply_hardware_state-AllIdle h m a)

  -- After DeactivateAll no hardware sensor has a request, whatever the backends answer.
  pub deactivate_all-AllIdle :
      (methods : CompositeMethods S) (m : Manager S) → AllIdle (deactivate_all methods env m)
  unfolding deactivate_all find_hardware
  deactivate_all-AllIdle methods m = apply_inputs-AllIdle (running m.hardware) (pos 0) _ (record {
    idle = λ h y e.
        let (x, found, same) = lookup-drop_requests h m.hardware y e in
        subst IsIdle (sym same) (refl, refl);
  })

  -- A call of initialize closes every request of a hardware sensor, also where it fails.
  pub initialize_service-closes :
      (methods : CompositeMethods S) (b : FlagBits) (desc : Descriptors) (ans : Answers)
      (callback : Bool) (s : Service S)
      → AllIdle (initialize_service env methods b desc ans callback s).1.manager
  unfolding initialize_service
  initialize_service-closes methods b desc ans true s = record {
    idle = (deactivate_all-AllIdle methods s.manager).idle;
  }
  initialize_service-closes methods b desc ans false s = record {
    idle = (deactivate_all-AllIdle methods s.manager).idle;
  }
