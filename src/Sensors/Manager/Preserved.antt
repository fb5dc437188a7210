-- ===== src/Sensors/Manager/Preserved.antt =====
-- The requests of the framework and the callbacks of the backends keep the protocol invariant.
use android_hardware_mainlin.Prelude.{
  ℕ, suc, ◌≡◌, refl, sym, subst, subst₂, inl, inr, Bool, true, false, not, ◌||◌, some, List, [],
  ◌∷◌, arith, if◌then◌else◌, Bool-cases, Option-cases, ℤ, pos, ◌==ℤ◌, nat_key, bytes_key, lookup,
}
use android_hardware_mainlin.Sensors.SensorTypes.Modes.{
  FlagBits, is_one_shot_sensor, is_wake_up_sensor,
}
use android_hardware_mainlin.Sensors.SensorTypes.Clamp.{
  InRange, clamp_sampling_period_ns, clamp_sampling_period_ns-InRange,
}
use android_hardware_mainlin.Sensors.Events.{Event}
use android_hardware_mainlin.Sensors.Manager.State.{
  Backends, BackendEntry, HardwareSensor, CompositeEntry, Manager, OperationMode, Call, call,
  find_hardware, modify_hardware, find_composite, modify_composite, flush_handled_by_frontend,
}
use android_hardware_mainlin.Sensors.Manager.Requests.{
  deliver, set_modes, set_operation_mode, apply_inputs, activate_hardware, batch_hardware, batch,
  flush_hardware, flush_composite, flush,
}
use android_hardware_mainlin.Sensors.Manager.Protocol.{
  Sensors, Inv, Holds, SameBackend, modify-Inv, quiet-Inv,
}
use android_hardware_mainlin.Sensors.Manager.Applied.{apply_hardware_state-Holds}

module _ {S : Type 0} where
  -- Two states with the same sensors and the same log.
  abbrev pub SameTable : Manager S → Manager S → Type 0
  SameTable m n = (n.hardware ≡ m.hardware) × (n.calls ≡ m.calls)

  pub SameTable-Holds :
      (infos : Sensors) (m n : Manager S) → SameTable m n → Holds infos m → Holds infos n
  SameTable-Holds infos m n s v = record { inv = subst₂ (Inv infos) (sym s.0) (sym s.1) v.inv }

  pub deliver-SameTable :
      (events : List Event) (wakeup : Bool) (m : Manager S) → SameTable m (deliver events wakeup m)
  unfolding deliver
  deliver-SameTable [] wakeup m = (refl, refl)
  deliver-SameTable (e ∷ es) wakeup m = (ground arith, ground arith)

  -- A write that leaves the backend's side and the period of the framework alone.
  pub write-Holds :
      (infos : Sensors) (h : ℕ) (f : HardwareSensor → HardwareSensor) (m : Manager S)
      → ((x : HardwareSensor) → SameBackend x (f x))
      → ((x : HardwareSensor) → (f x).client_period_ns ≡ x.client_period_ns)
      → Holds infos m
      → Holds infos (modify_hardware h f m)
  unfolding modify_hardware
  write-Holds infos h f m same period v = record {
    inv =
        modify-Inv infos h f m.hardware m.calls
          (λ x e. (
            same x,
            subst₂ InRange (sym (same x).info) (sym (period x)) (v.inv.tracks h x e).in_range,
          ))
          v.inv;
  }

module _ {S : Type 0} (env : Backends) (infos : Sensors) where
  pub apply_inputs-Holds :
      (inputs : List ℕ) (ret : ℤ) (m : Manager S)
      → Holds infos m
      → Holds infos (apply_inputs env inputs ret m).1
  unfolding apply_inputs
  apply_inputs-Holds [] ret m v = v
  apply_inputs-Holds (input ∷ inputs) ret m v =
      apply_inputs-Holds inputs _ _ (apply_hardware_state-Holds env infos input m v)

  set_modes-Holds :
      (mode : OperationMode) (i : ℕ) (entries : List BackendEntry) (ret : ℤ) (m : Manager S)
      → Holds infos m
      → Holds infos (set_modes env mode i entries ret m).1
  unfolding set_modes call
  set_modes-Holds mode i [] ret m v = v
  set_modes-Holds mode i (entry ∷ entries) ret m v =
      set_modes-Holds mode (suc i) entries _ _ (told entry.initialized)
    where
      c : Call
      c = Call.set_operation_mode i mode

      told :
          (b : Bool)
          → Holds infos (if b then record m { calls = (c, env.respond m.calls c) ∷ m.calls } else m)
      told true = record {
        inv = quiet-Inv infos m.hardware m.calls c _ (λ i l before. refl) tt v.inv;
      }
      told false = v

  pub set_operation_mode-Holds :
      (b : FlagBits) (mode : OperationMode) (m : Manager S)
      → Holds infos m
      → Holds infos (set_operation_mode env b mode m).1
  unfolding set_operation_mode
  set_operation_mode-Holds b mode m v = ground (
    arith,
    v,
    set_modes-Holds mode 0 m.backends (pos 0) (record m { mode = mode }) (record { inv = v.inv }),
  )

  write_active-Holds :
      (h : ℕ) (enabled : Bool) (m : Manager S)
      → Holds infos m
      → Holds infos (modify_hardware h (λ x. record x { client_active = enabled }) m)
  write_active-Holds h enabled m v =
      write-Holds infos h _ m
        (λ x. record { index = refl; local = refl; active = refl; info = refl }) (λ x. refl) v

  pub activate_hardware-Holds :
      (h : ℕ) (enabled : Bool) (hw : HardwareSensor) (m : Manager S)
      → Holds infos m
      → Holds infos (activate_hardware env h enabled hw m).1
  unfolding activate_hardware
  activate_hardware-Holds h enabled hw m v =
      let applied = apply_hardware_state-Holds env infos h _ (write_active-Holds h enabled m v) in
      ground (arith, v, applied, write_active-Holds h false _ applied)

  batch_hardware-Holds :
      (h : ℕ) (period latency : ℤ) (hw : HardwareSensor) (m : Manager S)
      → Holds infos m
      → find_hardware h m ≡ some hw
      → Holds infos (batch_hardware env h period latency hw m).1
  unfolding batch_hardware find_hardware modify_hardware
  batch_hardware-Holds h period latency hw m v e =
      ground (arith, v, written, apply_hardware_state-Holds env infos h _ written)
    where
      p : ℤ
      p = clamp_sampling_period_ns hw.info period

      f : HardwareSensor → HardwareSensor
      f x = record x { client_period_ns = p; client_latency_ns = latency }

      keep :
          (x : HardwareSensor)
          → lookup h m.hardware ≡ some x
          → SameBackend x (f x) × InRange x.info p
      keep x ex = (
        record { index = refl; local = refl; active = refl; info = refl },
        subst (λ i. InRange i p) (same_info x ex)
            (clamp_sampling_period_ns-InRange hw.info period (v.inv.tracks h hw e).ordered),
      )
        where
          same_info : (x : HardwareSensor) → lookup h m.hardware ≡ some x → hw.info ≡ x.info
          same_info x ex = cc

      written : Holds infos (modify_hardware h f m)
      written = record { inv = modify-Inv infos h f m.hardware m.calls keep v.inv }

  pub batch-Holds :
      (h : ℕ) (period latency : ℤ) (m : Manager S)
      → Holds infos m
      → Holds infos (batch env h period latency m).1
  unfolding batch modify_composite
  batch-Holds h period latency m v = elim (Option-cases (find_composite h m)) [
    | inr (c, e) ↦ rw (e, batch) (record { inv = v.inv })
    | inl none_there ↦
        rw (none_there, batch)
          (elim (Option-cases (find_hardware h m)) [
            | inl missing ↦ rw (missing, batch) v
            | inr (hw, e) ↦ rw (e, batch) (batch_hardware-Holds h period latency hw m v e)
          ])
  ]

  flush_hardware-Holds :
      (b : FlagBits) (h : ℕ) (hw : HardwareSensor) (m : Manager S)
      → Holds infos m
      → Holds infos (flush_hardware env b h hw m).1
  unfolding flush_hardware call
  flush_hardware-Holds b h hw m v =
      elim (Bool-cases (not hw.client_active || is_one_shot_sensor b hw.info.flags)) [
        | inl refused ↦ rw refused v
        | inr accepted ↦
            rw accepted (elim (Bool-cases (env.respond m.calls c ==ℤ flush_handled_by_frontend)) [
              | inl handled ↦ rw handled (
                  SameTable-Holds infos _ _
                    (deliver-SameTable _ (is_wake_up_sensor b hw.info.flags) _) flushed)
              | inr answered ↦ rw answered flushed
            ])
      ]
    where
      c : Call
      c = Call.flush hw.backend_index hw.local_handle

      flushed : Holds infos (record m { calls = (c, env.respond m.calls c) ∷ m.calls })
      flushed = record {
        inv = quiet-Inv infos m.hardware m.calls c _ (λ i l before. refl) tt v.inv;
      }

  flush_composite-Holds :
      (b : FlagBits) (h : ℕ) (c : CompositeEntry S) (m : Manager S)
      → Holds infos m
      → Holds infos (flush_composite b h c m).1
  unfolding flush_composite
  flush_composite-Holds b h c m v = elim (Bool-cases c.sensor.active) [
    | inl running_now ↦ rw running_now (
        SameTable-Holds infos m _ (deliver-SameTable _ (is_wake_up_sensor b c.sensor.info.flags) m)
          v)
    | inr stopped ↦ rw stopped v
  ]

  pub flush-Holds :
      (b : FlagBits) (h : ℕ) (m : Manager S) → Holds infos m → Holds infos (flush env b h m).1
  unfolding flush
  flush-Holds b h m v = elim (Option-cases (find_composite h m)) [
    | inr (c, e) ↦ rw (e, flush) (flush_composite-Holds b h c m v)
    | inl none_there ↦
        rw (none_there, flush)
          (elim (Option-cases (find_hardware h m)) [
            | inl missing ↦ rw (missing, flush) v
            | inr (hw, e) ↦ rw (e, flush) (flush_hardware-Holds b h hw m v)
          ])
  ]
