-- ===== src/Vibrator/Kept.antt =====
-- interfaces/vibrator/mainline/Vibrator.cpp: the effects on the input device leave the callbacks alone.
use android_hardware_mainlin.Prelude.{
  ℕ, ◌≡◌, refl, ◌∙◌, Bool, not, ◌||◌, Option, none, some, [], ◌∷◌, ◌++◌, length, ℤ, nat_key,
  bytes_key, if_holds,
}
use android_hardware_mainlin.Vibrator.State.{stop_command, FloatOps, Device, Vibrator}
use android_hardware_mainlin.Vibrator.Device.{
  to_uint16, below_zero, stop_effect, uploaded, upload_effect, play_effect, erase_effect,
}

-- The callbacks are those of the first state.
pub record Kept (v w : Vibrator) : Type 0 where
  pub completed_kept : w.completed ≡ v.completed
  pub callback_kept : w.vibration_callback ≡ v.vibration_callback
  pub global_kept : w.global_vibration_callback ≡ v.global_vibration_callback
  pub vibrating_kept : w.is_vibrating ≡ v.is_vibrating

Kept-refl : (v : Vibrator) → Kept v v
Kept-refl v = record {
  completed_kept = refl;
  callback_kept = refl;
  global_kept = refl;
  vibrating_kept = refl;
}

pub Kept-trans : (u v w : Vibrator) → Kept u v → Kept v w → Kept u w
Kept-trans u v w h k = record {
  completed_kept = k.completed_kept ∙ h.completed_kept;
  callback_kept = k.callback_kept ∙ h.callback_kept;
  global_kept = k.global_kept ∙ h.global_kept;
  vibrating_kept = k.vibrating_kept ∙ h.vibrating_kept;
}

erase_effect-Kept : (v : Vibrator) (id : ℤ) → Kept v (erase_effect v id)
unfolding erase_effect
erase_effect-Kept v id =
    if_holds (Kept v) v.has_device
      (λ there. record {
        completed_kept = refl;
        callback_kept = refl;
        global_kept = refl;
        vibrating_kept = refl;
      })
      (λ missing. Kept-refl v)

pub stop_effect-Kept : (v : Vibrator) → Kept v (stop_effect v)
unfolding stop_effect
stop_effect-Kept v =
    if_holds (Kept v) (not v.has_device || below_zero v.last_effect_id) (λ idle. Kept-refl v)
      (λ busy.
        let k =
          erase_effect-Kept
            (record v { commands = v.commands ++ stop_command (to_uint16 v.last_effect_id) ∷ [] })
            v.last_effect_id in
        record {
          completed_kept = k.completed_kept;
          callback_kept = k.callback_kept;
          global_kept = k.global_kept;
          vibrating_kept = k.vibrating_kept;
        })

abbrev KeptAfter : Vibrator → Vibrator × Bool → Type 0
KeptAfter v result = Kept v result.0

uploaded-Kept :
    (v : Vibrator) (length magnitude : ℕ) (id : Option ℕ)
    → KeptAfter v (uploaded v length magnitude id)
uploaded-Kept v length magnitude none = Kept-refl v
uploaded-Kept v length magnitude (some id) = record {
  completed_kept = refl;
  callback_kept = refl;
  global_kept = refl;
  vibrating_kept = refl;
}

pub upload_effect-Kept :
    (ops : FloatOps) (device : Device) (v : Vibrator) (duration_ms : ℤ) (amplitude : ℕ)
    → KeptAfter v (upload_effect ops device v duration_ms amplitude)
unfolding upload_effect
upload_effect-Kept ops device v duration_ms amplitude =
    if_holds (KeptAfter v) (not v.has_device) (λ missing. Kept-refl v)
      (λ there.
        Kept-trans v (stop_effect v) _ (stop_effect-Kept v) (uploaded-Kept (stop_effect v) _ _ _))

pub play_effect-Kept : (v : Vibrator) → Kept v (play_effect v)
unfolding play_effect
play_effect-Kept v =
    if_holds (Kept v) v.has_device
      (λ there. record {
        completed_kept = refl;
        callback_kept = refl;
        global_kept = refl;
        vibrating_kept = refl;
      })
      (λ missing. Kept-refl v)
