-- ===== src/Sensors/Manager/Rollback.antt =====
-- The request of the framework that Activate of SensorManager.cpp leaves behind.
use android_hardware_mainlin.Prelude.{
  ℕ, ◌≡◌, refl, inl, inr, Bool, true, false, not, ◌&&◌, none, some, arith, if◌then◌else◌, ==_refl,
  Bool-cases, ℤ, pos, ◌==ℤ◌, nat_key, bytes_key,
}
use android_hardware_mainlin.Sensors.Manager.State.{
  Backends, CompositeMethods, HardwareSensor, Manager, Call, lookup-modify, modify_hardware,
  find_hardware, find_composite, call,
}
use android_hardware_mainlin.Sensors.Manager.Apply.{
  bool_eq, apply_batch, apply_activate, apply_found, apply_hardware_state, need_batch,
  need_activate, desired_active, desired_period, desired_latency,
}
use android_hardware_mainlin.Sensors.Manager.Requests.{activate_hardware, activate}

-- The manager has a sensor under the handle, and whether the framework has it active.
pub record HasClient {S : Type 0} (h : ℕ) (active : Bool) (m : Manager S) : Type 0 where
  pub sensor : HardwareSensor
  pub found : find_hardware h m ≡ some sensor
  pub client : sensor.client_active ≡ active

modify-HasClient :
    {S : Type 0} (h : ℕ) (f : HardwareSensor → HardwareSensor) (c d : Bool) (m : Manager S)
    → ((x : HardwareSensor) → x.client_active ≡ c → (f x).client_active ≡ d)
    → HasClient h c m
    → HasClient h d (modify_hardware h f m)
unfolding modify_hardware find_hardware
modify-HasClient h f c d m keep s = record {
  sensor = f s.sensor;
  found = rw (lookup-modify h h f m.hardware) (rw s.found (rw (==_refl h) refl));
  client = keep s.sensor s.client;
}

module _ {S : Type 0} (env : Backends) where
  call-HasClient :
      (h : ℕ) (c : Bool) (k : Call) (m : Manager S)
      → HasClient h c m
      → HasClient h c (call env k m).1
  unfolding call find_hardware
  call-HasClient h c k m s = record { sensor = s.sensor; found = s.found; client = s.client }

  apply_batch-HasClient :
      (h : ℕ) (c : Bool) (hw : HardwareSensor) (m : Manager S)
      → HasClient h c m
      → HasClient h c (apply_batch env h hw m).1
  unfolding apply_batch
  apply_batch-HasClient h c hw m s =
      let k =
        Call.batch hw.backend_index hw.local_handle (desired_period hw) (desired_latency hw) in
      elim (Bool-cases ((call env k m).0 ==ℤ pos 0)) [
        | inl done ↦ rw done (modify-HasClient h _ c c _ (λ x e. e) (call-HasClient h c k m s))
        | inr failed ↦ rw failed (call-HasClient h c k m s)
      ]

  apply_activate-HasClient :
      (h : ℕ) (c : Bool) (hw : HardwareSensor) (m : Manager S)
      → HasClient h c m
      → HasClient h c (apply_activate env h hw m).1
  unfolding apply_activate
  apply_activate-HasClient h c hw m s =
      let k = Call.activate hw.backend_index hw.local_handle (desired_active hw) in
      elim (Bool-cases ((call env k m).0 ==ℤ pos 0)) [
        | inl done ↦ rw done (modify-HasClient h _ c c _ (λ x e. e) (call-HasClient h c k m s))
        | inr failed ↦ rw failed (call-HasClient h c k m s)
      ]

  apply_found-HasClient :
      (h : ℕ) (c : Bool) (hw : HardwareSensor) (m : Manager S)
      → HasClient h c m
      → HasClient h c (apply_found env h hw m).1
  unfolding apply_found
  apply_found-HasClient h c hw m s = elim (Bool-cases (need_batch hw)) [
    | inl batches ↦ rw batches (elim (Bool-cases (need_activate hw)) [
      | inl activates ↦
          rw activates (apply_activate-HasClient h c hw _ (apply_batch-HasClient h c hw m s))
      | inr stays ↦ rw stays (apply_batch-HasClient h c hw m s)
    ])
    | inr quiet ↦ rw quiet (elim (Bool-cases (need_activate hw)) [
      | inl activates ↦ rw activates (apply_activate-HasClient h c hw m s)
      | inr stays ↦ rw stays s
    ])
  ]

  apply_hardware_state-HasClient :
      (h : ℕ) (c : Bool) (m : Manager S)
      → HasClient h c m
      → HasClient h c (apply_hardware_state env h m).1
  unfolding apply_hardware_state
  apply_hardware_state-HasClient h c m s =
      rw (s.found, apply_hardware_state) (apply_found-HasClient h c s.sensor m s)

  activate_hardware-HasClient :
      (h : ℕ) (enabled : Bool) (hw : HardwareSensor) (m : Manager S)
      → find_hardware h m ≡ some hw
      → let (ret, m') = activate_hardware env h enabled hw m in
        HasClient h (enabled && (ret ==ℤ pos 0)) m'
  unfolding activate_hardware
  activate_hardware-HasClient h enabled hw m found =
      elim (Bool-cases (bool_eq hw.client_active enabled)) [
        | inl same ↦ rw same (record { sensor = hw; found = found; client = ground arith })
        | inr change ↦ rw change (finished enabled)
      ]
    where
      asked : Bool → Manager S
      asked e = modify_hardware h (λ x. record x { client_active = e }) m

      told : (e : Bool) → HasClient h e (apply_hardware_state env h (asked e)).1
      told e = apply_hardware_state-HasClient h e (asked e) (
          modify-HasClient h (λ x. record x { client_active = e }) hw.client_active e m
            (λ x c. refl) (record { sensor = hw; found = found; client = refl }))

      finished :
          (e : Bool)
          → let (ret, m') = apply_hardware_state env h (asked e) in
            let r : ℤ × Manager S =
              if not (ret ==ℤ pos 0) && e
              then (ret, modify_hardware h (λ x. record x { client_active = false }) m')
              else (ret, m') in
            HasClient h (e && (r.0 ==ℤ pos 0)) r.1
      finished false = elim (Bool-cases ((apply_hardware_state env h (asked false)).0 ==ℤ pos 0)) [
        | inl good ↦ rw good (told false)
        | inr bad ↦ rw bad (told false)
      ]
      finished true = elim (Bool-cases ((apply_hardware_state env h (asked true)).0 ==ℤ pos 0)) [
        | inl good ↦ rw good (rw good (told true))
        | inr bad ↦ rw bad (rw bad (modify-HasClient h _ true false _ (λ x c. refl) (told true)))
      ]

  -- After Activate on a hardware sensor, the framework has the sensor active exactly if it asked for
  -- that and the result is 0: an activation that fails is taken back.
  pub activate-HasClient :
      (methods : CompositeMethods S) (h : ℕ) (enabled : Bool) (hw : HardwareSensor) (m : Manager S)
      → find_composite h m ≡ none
      → find_hardware h m ≡ some hw
      → let (ret, m') = activate methods env h enabled m in
        HasClient h (enabled && (ret ==ℤ pos 0)) m'
  unfolding activate
  activate-HasClient methods h enabled hw m other found =
      rw (other, activate) (rw (found, activate) (activate_hardware-HasClient h enabled hw m found))
