-- ===== src/Sensors/Manager/Apply.antt =====
-- SensorManager.cpp: ApplyHardwareState.
use android_hardware_mainlin.Prelude.{
  ℕ, Bool, true, false, not, ◌&&◌, ◌||◌, List, [], ◌∷◌, none, some, ℤ, pos, ◌==ℤ◌, if◌then◌else◌,
  is_empty, min_ℤ,
}
use android_hardware_mainlin.Sensors.SensorTypes.Traits.{SensorInfo}
use android_hardware_mainlin.Sensors.SensorTypes.Clamp.{clamp_sampling_period_ns}
use android_hardware_mainlin.Sensors.Manager.State.{
  Backends, HardwareSensor, Manager, einval, activate, batch, call, find_hardware, modify_hardware,
}

unfoldable pub desired_active : HardwareSensor → Bool
desired_active hw = hw.client_active || not (is_empty hw.composite_periods)

-- The loop over composite_periods, from the period of the framework or 0.
unfoldable pub fastest : SensorInfo → ℤ → List (ℕ × ℤ) → ℤ
fastest info desired [] = desired
fastest info desired ((composite, period) ∷ rest) =
    let p = clamp_sampling_period_ns info period in
    fastest info (if desired ==ℤ pos 0 then p else min_ℤ desired p) rest

unfoldable pub desired_period : HardwareSensor → ℤ
desired_period hw =
    let union =
      fastest hw.info (if hw.client_active then hw.client_period_ns else pos 0)
        hw.composite_periods in
    if union ==ℤ pos 0 then hw.client_period_ns else union

unfoldable pub desired_latency : HardwareSensor → ℤ
desired_latency hw = if hw.client_active then hw.client_latency_ns else pos 0

unfoldable pub need_batch : HardwareSensor → Bool
need_batch hw =
    desired_active hw
    && (not (desired_period hw ==ℤ hw.backend_period_ns)
        || not (desired_latency hw ==ℤ hw.backend_latency_ns))

abbrev pub bool_eq : Bool → Bool → Bool
bool_eq true b = b
bool_eq false b = not b

unfoldable pub need_activate : HardwareSensor → Bool
need_activate hw = not (bool_eq (desired_active hw) hw.backend_active)

module _ {S : Type 0} (env : Backends) where
  -- The call of Batch and, where it succeeds, the record of what the backend was told.
  unfoldable pub apply_batch : ℕ → HardwareSensor → Manager S → ℤ × Manager S
  apply_batch h hw m =
      let (r, m') =
        call env (batch hw.backend_index hw.local_handle (desired_period hw) (desired_latency hw))
          m in
      if r ==ℤ pos 0
      then (
        r,
        modify_hardware h
            (λ x. record x {
              backend_period_ns = desired_period hw;
              backend_latency_ns = desired_latency hw;
            })
            m',
      )
      else (r, m')

  unfoldable pub apply_activate : ℕ → HardwareSensor → Manager S → ℤ × Manager S
  apply_activate h hw m =
      let (r, m') = call env (activate hw.backend_index hw.local_handle (desired_active hw)) m in
      if r ==ℤ pos 0
      then (r, modify_hardware h (λ x. record x { backend_active = desired_active hw }) m')
      else (r, m')

  -- What is desired is read once, before the calls; the result of Activate replaces that of Batch.
  unfoldable pub apply_found : ℕ → HardwareSensor → Manager S → ℤ × Manager S
  apply_found h hw m =
      let (r, m') = if need_batch hw then apply_batch h hw m else (pos 0, m) in
      if need_activate hw then apply_activate h hw m' else (r, m')

  unfoldable pub apply_hardware_state : ℕ → Manager S → ℤ × Manager S
  apply_hardware_state h m = elim (find_hardware h m) [
    | none ↦ (einval, m)
    | some hw ↦ apply_found h hw m
  ]
