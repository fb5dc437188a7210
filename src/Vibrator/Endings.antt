-- ===== src/Vibrator/Endings.antt =====
-- interfaces/vibrator/mainline/Vibrator.cpp: a vibration that nothing disturbs.
use android_hardware_mainlin.Prelude.{
  ℕ, ◌≡◌, refl, ◌∙◌, Bool, true, false, Option, none, some, List, [], ◌∷◌, if◌then◌else◌, ==_refl,
  ℤ, nat_key, bytes_key, if_holds,
}
use android_hardware_mainlin.Vibrator.State.{
  Status, ok, Effect, EffectStrength, FloatOps, Device, Vibrator, Action,
}
use android_hardware_mainlin.Vibrator.Device.{
  stop_effect, upload_effect, play_effect, get_effect_duration_ms, get_amplitude_for_strength,
}
use android_hardware_mainlin.Vibrator.Requests.{
  is_double_click, perform_thread, third, is_supported_effect, is_strength, dispatch_vibrate, on,
  perform,
}
use android_hardware_mainlin.Vibrator.Threads.{call, same_callback, run_action, finish}
use android_hardware_mainlin.Vibrator.Kept.{
  Kept, Kept-trans, play_effect-Kept, stop_effect-Kept, upload_effect-Kept,
}

same_callback_refl : (callback : Option ℕ) → same_callback callback callback ≡ true
unfolding same_callback
same_callback_refl none = refl
same_callback_refl (some c) = ==_refl c

-- The end of a vibration whose callback is the stored one.
finish_lem :
    (w : Vibrator) (done : List ℕ) (global callback : Option ℕ)
    → w.completed ≡ done
    → w.vibration_callback ≡ callback
    → w.global_vibration_callback ≡ global
    → (finish w callback).completed ≡ call global (call callback done)
unfolding finish
finish_lem w done global callback c e g = rw (c, e, g, same_callback_refl callback) refl

finish-Kept :
    (v w : Vibrator) (callback : Option ℕ)
    → Kept v w
    → v.vibration_callback ≡ callback
    → (finish w callback).completed ≡ call v.global_vibration_callback (call callback v.completed)
finish-Kept v w callback k e =
    finish_lem w v.completed v.global_vibration_callback callback k.completed_kept
      (k.callback_kept ∙ e) k.global_kept

module _ (ops : FloatOps) (device : Device) where
  abbrev pub run_actions : Vibrator → List Action → Vibrator
  run_actions v [] = v
  run_actions v (action ∷ rest) = run_actions (run_action ops device v action) rest

  abbrev pub run_threads : Vibrator → List (List Action) → Vibrator
  run_threads v [] = v
  run_threads v (thread ∷ rest) = run_threads (run_actions v thread) rest

  abbrev once : Vibrator → ℤ → ℕ → Vibrator
  once v duration_ms amplitude =
      stop_effect (play_effect (upload_effect ops device v duration_ms amplitude).0)

  once-Kept :
      (v : Vibrator) (duration_ms : ℤ) (amplitude : ℕ) → Kept v (once v duration_ms amplitude)
  once-Kept v duration_ms amplitude =
      let after = (upload_effect ops device v duration_ms amplitude).0 in
      Kept-trans v (play_effect after) _
        (Kept-trans v after _ (upload_effect-Kept ops device v duration_ms amplitude)
          (play_effect-Kept after))
        (stop_effect-Kept (play_effect after))

  perform_thread-completed :
      (v : Vibrator) (effect : Effect) (duration_ms : ℤ) (amplitude : ℕ) (callback : Option ℕ)
      → v.vibration_callback ≡ callback
      → (run_actions v (perform_thread effect duration_ms amplitude callback)).completed
        ≡ call v.global_vibration_callback (call callback v.completed)
  unfolding perform_thread run_action
  perform_thread-completed v effect duration_ms amplitude callback e =
      let first = once v (third duration_ms) amplitude in
      if_holds Completes (is_double_click effect)
        (λ twice.
          finish-Kept v _ callback
            (Kept-trans v first _ (once-Kept v (third duration_ms) amplitude)
              (once-Kept first (third duration_ms) amplitude))
            e)
        (λ single. finish-Kept v _ callback (once-Kept v duration_ms amplitude) e)
    where
      Completes : List Action → Type 0
      Completes thread =
          (run_actions v thread).completed
          ≡ call v.global_vibration_callback (call callback v.completed)

  dispatch_vibrate-completed :
      (w : Vibrator) (done : List ℕ) (global : Option ℕ) (timeout_ms : ℤ) (callback : Option ℕ)
      (status : Status)
      → w.is_vibrating ≡ false
      → w.completed ≡ done
      → w.global_vibration_callback ≡ global
      → (run_threads
          (dispatch_vibrate w timeout_ms callback status).vibrator
          (dispatch_vibrate w timeout_ms callback status).threads).completed
        ≡ call global (call callback done)
  unfolding dispatch_vibrate run_action
  dispatch_vibrate-completed w done global timeout_ms callback status idle c g = rw idle (
      finish_lem (record w { vibration_callback = callback; is_vibrating = true }) done global
        callback c refl g)

  perform-completed :
      (v : Vibrator) (effect : Effect) (strength : EffectStrength) (callback : Option ℕ)
      → v.is_vibrating ≡ false
      → is_supported_effect effect ≡ true
      → is_strength strength ≡ true
      → (run_threads
          (perform v effect strength callback).vibrator
          (perform v effect strength callback).threads).completed
        ≡ call v.global_vibration_callback (call callback v.completed)
  unfolding perform
  perform-completed v effect strength callback idle fine strong =
      let started = record v { vibration_callback = callback; is_vibrating = true } in
      rw (fine, strong, idle)
        (perform_thread-completed started effect (get_effect_duration_ms v.durations effect)
          (get_amplitude_for_strength strength) callback refl)

  dispatch-Kept :
      (v w : Vibrator) (timeout_ms : ℤ) (callback : Option ℕ)
      → Kept v w
      → v.is_vibrating ≡ false
      → (run_threads
          (dispatch_vibrate w timeout_ms callback ok).vibrator
          (dispatch_vibrate w timeout_ms callback ok).threads).completed
        ≡ call v.global_vibration_callback (call callback v.completed)
  dispatch-Kept v w timeout_ms callback k idle =
      dispatch_vibrate-completed w v.completed v.global_vibration_callback timeout_ms callback ok
        (k.vibrating_kept ∙ idle) k.completed_kept k.global_kept

  abbrev played : Vibrator × Bool → Vibrator
  played result = if result.1 then play_effect result.0 else result.0

  played-Kept : (v : Vibrator) (result : Vibrator × Bool) → Kept v result.0 → Kept v (played result)
  played-Kept v result done =
      if_holds (Kept v) result.1
        (λ yes. Kept-trans v result.0 (play_effect result.0) done (play_effect-Kept result.0))
        (λ failed. done)

  on-completed :
      (v : Vibrator) (timeout_ms : ℤ) (callback : Option ℕ)
      → v.is_vibrating ≡ false
      → (run_threads
          (on ops device v timeout_ms callback).vibrator
          (on ops device v timeout_ms callback).threads).completed
        ≡ call v.global_vibration_callback (call callback v.completed)
  unfolding on
  on-completed v timeout_ms callback idle =
      dispatch-Kept v (played (upload_effect ops device v timeout_ms v.current_amplitude))
        timeout_ms callback
        (played-Kept v (upload_effect ops device v timeout_ms v.current_amplitude)
          (upload_effect-Kept ops device v timeout_ms v.current_amplitude))
        idle

  -- A call of `on` or `perform` that comes while no vibration runs, for `perform` with an effect and a
  -- strength that are supported: once the thread that it starts has run, and nothing else in between,
  -- its callback and the stored global callback are completed, in this order, and no other.
  pub threads-completed :
      (v : Vibrator) (timeout_ms : ℤ) (effect : Effect) (strength : EffectStrength)
      (callback : Option ℕ)
      → v.is_vibrating ≡ false
      → is_supported_effect effect ≡ true
      → is_strength strength ≡ true
      → ((run_threads
            (on ops device v timeout_ms callback).vibrator
            (on ops device v timeout_ms callback).threads).completed
          ≡ call v.global_vibration_callback (call callback v.completed))
        × ((run_threads
              (perform v effect strength callback).vibrator
              (perform v effect strength callback).threads).completed
            ≡ call v.global_vibration_callback (call callback v.completed))
  threads-completed v timeout_ms effect strength callback idle fine strong = (
    on-completed v timeout_ms callback idle,
    perform-completed v effect strength callback idle fine strong,
  )
