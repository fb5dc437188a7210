-- ===== src/Sensors/Manager/Applied.antt =====
-- ApplyHardwareState keeps the protocol invariant.
use android_hardware_mainlin.Prelude.{
  ℕ, ◌≡◌, refl, sym, subst, ◌∙◌, ap₂, subst₂, inl, inr, Bool, true, false, not, some, ◌∷◌, arith,
  if◌then◌else◌, Bool-cases, Option-cases, ℤ, pos, ◌==ℤ◌, ==ℤ_iff, nat_key, bytes_key, lookup,
}
use android_hardware_mainlin.Sensors.SensorTypes.Clamp.{InRange}
use android_hardware_mainlin.Sensors.Manager.State.{
  Backends, HardwareSensor, Manager, Call, modify, lookup-modify, call, find_hardware,
  modify_hardware,
}
use android_hardware_mainlin.Sensors.Manager.Apply.{
  desired_active, desired_period, desired_latency, need_batch, need_activate, bool_eq, apply_batch,
  apply_activate, apply_found, apply_hardware_state,
}
use android_hardware_mainlin.Sensors.Manager.Protocol.{
  active_of, Sensors, Inv, SameBackend, modify-Inv, quiet-Inv, Holds, SameBackend-refl,
}
use android_hardware_mainlin.Sensors.Manager.Synced.{set_active, activated, desired_period-InRange}

not_of_bool_eq : (d b : Bool) → not (bool_eq d b) ≡ true → b ≡ not d
not_of_bool_eq d b h = ground arith

module _ {S : Type 0} (env : Backends) (infos : Sensors) where
  -- The sensor under a handle is still the one that was looked up, on the backend's side.
  abbrev pub Still : ℕ → HardwareSensor → Manager S → Type 0
  Still h hw m = (x : HardwareSensor) × (find_hardware h m ≡ some x) × SameBackend hw x

  apply_batch-Holds :
      (h : ℕ) (hw : HardwareSensor) (m : Manager S)
      → Holds infos m
      → find_hardware h m ≡ some hw
      → Holds infos (apply_batch env h hw m).1 × Still h hw (apply_batch env h hw m).1
  unfolding apply_batch call modify_hardware find_hardware
  apply_batch-Holds h hw m v e = elim (Bool-cases (r ==ℤ pos 0)) [
    | inl done ↦ rw done (
      record { inv = modify-Inv infos h f m.hardware _ keep logged },
      (
        f hw,
        ground (arith, lookup-modify h h f m.hardware),
        record { index = refl; local = refl; active = refl; info = refl },
      ),
    )
    | inr failed ↦ rw failed (record { inv = logged }, (hw, e, SameBackend-refl hw))
  ]
    where
      c : Call
      c = Call.batch hw.backend_index hw.local_handle (desired_period hw) (desired_latency hw)

      r : ℤ
      r = env.respond m.calls c

      f : HardwareSensor → HardwareSensor
      f x = record x {
        backend_period_ns = desired_period hw;
        backend_latency_ns = desired_latency hw;
      }

      logged : Inv infos m.hardware ((c, r) ∷ m.calls)
      logged =
          let t = v.inv.tracks h hw e in
          quiet-Inv infos m.hardware m.calls c r (λ i l b. refl)
            (subst (λ i. InRange i (desired_period hw)) (sym t.info)
              (desired_period-InRange hw t.ordered t.in_range))
            v.inv

      keep :
          (x : HardwareSensor)
          → lookup h m.hardware ≡ some x
          → SameBackend x (f x) × InRange x.info x.client_period_ns
      keep x ex = (
        record { index = refl; local = refl; active = refl; info = refl },
        (v.inv.tracks h x ex).in_range,
      )

  apply_activate-Holds :
      (h : ℕ) (hw : HardwareSensor) (m : Manager S)
      → Holds infos m
      → Still h hw m
      → need_activate hw ≡ true
      → Holds infos (apply_activate env h hw m).1
  unfolding apply_activate call modify_hardware find_hardware need_activate
  apply_activate-Holds h hw m v (x, ex, s) need = elim (Bool-cases (r ==ℤ pos 0)) [
    | inl done ↦ rw done (record {
      inv =
          subst₂ (λ c' r'. Inv infos (modify h (set_active d) m.hardware) ((c', r') ∷ m.calls))
            (ap₂ (λ i l. Call.activate i l d) s.index s.local) (sym ((==ℤ_iff r (pos 0)).0 done))
            (activated infos h x d m.hardware m.calls v.inv ex was);
    })
    | inr failed ↦ rw failed (record {
      inv =
          quiet-Inv infos m.hardware m.calls c r (λ i l b. ground arith)
            (ap₂ (active_of m.calls) (sym s.index) (sym s.local)
              ∙ sym (v.inv.tracks h x ex).active
              ∙ was)
            v.inv;
    })
  ]
    where
      d : Bool
      d = desired_active hw

      c : Call
      c = Call.activate hw.backend_index hw.local_handle d

      r : ℤ
      r = env.respond m.calls c

      was : x.backend_active ≡ not d
      was = s.active ∙ not_of_bool_eq d hw.backend_active need

  apply_found-Holds :
      (h : ℕ) (hw : HardwareSensor) (m : Manager S)
      → Holds infos m
      → find_hardware h m ≡ some hw
      → Holds infos (apply_found env h hw m).1
  unfolding apply_found
  apply_found-Holds h hw m v e = elim (Bool-cases (need_activate hw)) [
    | inl need ↦ rw need (apply_activate-Holds h hw _ batched.0 batched.1 need)
    | inr quiet ↦ rw quiet batched.0
  ]
    where
      after : Bool → Manager S
      after b = (if b then apply_batch env h hw m else (pos 0, m)).1

      batched_by : (b : Bool) → Holds infos (after b) × Still h hw (after b)
      batched_by true = apply_batch-Holds h hw m v e
      batched_by false = (v, (hw, e, SameBackend-refl hw))

      batched : Holds infos (after (need_batch hw)) × Still h hw (after (need_batch hw))
      batched = batched_by (need_batch hw)

  -- Whatever the backend answers, the calls that ApplyHardwareState makes are admissible.
  pub apply_hardware_state-Holds :
      (h : ℕ) (m : Manager S) → Holds infos m → Holds infos (apply_hardware_state env h m).1
  unfolding apply_hardware_state
  apply_hardware_state-Holds h m v = elim (Option-cases (find_hardware h m)) [
    | inl missing ↦ rw (missing, apply_hardware_state) v
    | inr (hw, e) ↦ rw (e, apply_hardware_state) (apply_found-Holds h hw m v e)
  ]
