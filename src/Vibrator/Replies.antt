-- ===== src/Vibrator/Replies.antt =====
-- interfaces/vibrator/mainline/Vibrator.cpp: what the calls make of the number of completions.
use android_hardware_mainlin.Prelude.{
  ℕ, ◌+◌, ◌≤◌, ◌≡◌, ◌∙◌, Bool, false, not, ◌||◌, Option, none, some, List, [], ◌∷◌, arith, ltb,
  if◌then◌else◌, is_some, length, ℤ, pos, ltb_ℤ, nat_key, bytes_key, if_holds,
}
use android_hardware_mainlin.Vibrator.State.{
  Effect, CompositeEffect, EffectStrength, Status, ok, FloatOps, Device, CapBits, Vibrator, Action,
  compose_upload_action, play_action, stop_action, sleep_action, Reply,
}
use android_hardware_mainlin.Vibrator.Device.{
  stop_effect, upload_effect, play_effect, get_primitive_duration_ms, get_effect_duration_ms,
  get_amplitude_for_strength,
}
use android_hardware_mainlin.Vibrator.Requests.{
  is_double_click, perform_thread, compose_thread, is_noop, is_supported_effect, is_strength,
  compose_size_max, is_ok, check_composite, dispatch_vibrate, set_global_vibration_callback, off,
  on, perform, compose,
}
use android_hardware_mainlin.Vibrator.Capabilities.{
  get_capabilities, has_capability, vendor_amplitude, perform_vendor_effect, set_amplitude,
  set_external_control,
}
use android_hardware_mainlin.Vibrator.Owed.{
  weight, in_thread, in_threads, owed, Owes, stop_effect-owed, upload_effect-owed, play_effect-owed,
  get_capabilities-owed,
}

module _ (c : ℕ) where
  -- A call leaves no more than what was owed and the callback that it passes in.
  abbrev pub OwesReply : ℕ → Reply → Type 0
  OwesReply owes r = owed c r.vibrator + in_threads c r.threads ≤ owes

  pub dispatch_vibrate-owed :
      (v : Vibrator) (timeout_ms : ℤ) (callback : Option ℕ) (status : Status)
      → OwesReply (owed c v + weight c callback) (dispatch_vibrate v timeout_ms callback status)
  unfolding dispatch_vibrate
  dispatch_vibrate-owed v timeout_ms callback status =
      if_holds (OwesReply (owed c v + weight c callback)) v.is_vibrating (λ busy. omega arith)
        (λ idle. omega arith)

  pub off-owed : (v : Vibrator) → OwesReply (owed c v) (off v)
  unfolding off
  off-owed v =
      let stopped = stop_effect-owed c (record v {
        is_vibrating = false;
        vibration_callback = none;
        global_vibration_callback = none;
      }) in
      omega arith

  pub set_global-owed :
      (v : Vibrator) (callback : Option ℕ)
      → OwesReply (owed c v + weight c callback) (set_global_vibration_callback v callback)
  unfolding set_global_vibration_callback
  set_global-owed v callback =
      if_holds (OwesReply (owed c v + weight c callback)) v.is_vibrating (λ busy. omega arith)
        (λ idle. omega arith)

  pub dispatch_as :
      (v w : Vibrator) (timeout_ms : ℤ) (callback : Option ℕ) (status : Status)
      → owed c w ≡ owed c v
      → OwesReply (owed c v + weight c callback) (dispatch_vibrate w timeout_ms callback status)
  dispatch_as v w timeout_ms callback status same =
      let replied = dispatch_vibrate-owed w timeout_ms callback status in omega arith

  pub on-owed :
      (ops : FloatOps) (device : Device) (v : Vibrator) (timeout_ms : ℤ) (callback : Option ℕ)
      → OwesReply (owed c v + weight c callback) (on ops device v timeout_ms callback)
  unfolding on
  on-owed ops device v timeout_ms callback =
      let result = upload_effect ops device v timeout_ms v.current_amplitude in
      let done = upload_effect-owed c ops device v timeout_ms v.current_amplitude in
      dispatch_as v _ timeout_ms callback ok (
        if_holds (Owes c (owed c v)) result.1 (λ yes. play_effect-owed c result.0 ∙ done)
          (λ failed. done))

  abbrev pub InThread : ℕ → List Action → Type 0
  InThread owes thread = in_thread c thread ≡ owes

  pub perform_thread-pending :
      (effect : Effect) (duration_ms : ℤ) (amplitude : ℕ) (callback : Option ℕ)
      → in_thread c (perform_thread effect duration_ms amplitude callback) ≡ 0
  unfolding perform_thread
  perform_thread-pending effect duration_ms amplitude callback =
      if_holds (InThread 0) (is_double_click effect) (λ twice. omega arith) (λ once. omega arith)

  pub compose_thread-pending :
      (composite : List CompositeEffect) (callback : Option ℕ)
      → in_thread c (compose_thread composite callback) ≡ weight c callback
  unfolding compose_thread
  compose_thread-pending [] callback = omega arith
  compose_thread-pending (e ∷ rest) callback =
      let later = compose_thread-pending rest callback in
      let duration_ms = get_primitive_duration_ms e.primitive in
      let playing =
        compose_upload_action duration_ms e.scale
        ∷ play_action
        ∷ sleep_action duration_ms
        ∷ stop_action
        ∷ compose_thread rest callback in
      let more = if is_noop e.primitive then compose_thread rest callback else playing in
      let played : in_thread c more ≡ weight c callback =
        if_holds (InThread (weight c callback)) (is_noop e.primitive) (λ silent. later)
          (λ loud. omega arith) in
      if_holds (InThread (weight c callback)) (ltb_ℤ (pos 0) e.delay_ms) (λ delayed. omega arith)
        (λ at_once. played)

  pub perform-owed :
      (v : Vibrator) (effect : Effect) (strength : EffectStrength) (callback : Option ℕ)
      → OwesReply (owed c v + weight c callback) (perform v effect strength callback)
  unfolding perform
  perform-owed v effect strength callback =
      let waits =
        perform_thread-pending effect (get_effect_duration_ms v.durations effect)
          (get_amplitude_for_strength strength) callback in
      let P = OwesReply (owed c v + weight c callback) in
      if_holds P (not (is_supported_effect effect) || not (is_strength strength))
        (λ refused. omega arith)
        (λ fine. if_holds P v.is_vibrating (λ busy. omega arith) (λ idle. omega arith))

  pub compose-owed :
      (ops : FloatOps) (v : Vibrator) (composite : List CompositeEffect) (callback : Option ℕ)
      → OwesReply (owed c v + weight c callback) (compose ops v composite callback)
  unfolding compose
  compose-owed ops v composite callback =
      let waits = compose_thread-pending composite callback in
      let P = OwesReply (owed c v + weight c callback) in
      if_holds P (ltb compose_size_max (length composite)) (λ a. omega arith)
        (λ a.
          if_holds P (not (is_ok (check_composite ops composite))) (λ b. omega arith)
            (λ b. omega arith))

  pub perform_vendor_effect-owed :
      (ops : FloatOps) (device : Device) (bits : CapBits) (version : Option ℕ) (v : Vibrator)
      (strength : EffectStrength) (scale vendor_scale : ℕ) (duration : Option ℤ)
      (callback : Option ℕ)
      → OwesReply (owed c v + weight c callback) (
          perform_vendor_effect ops device bits version v strength scale vendor_scale duration
            callback)
  unfolding perform_vendor_effect
  perform_vendor_effect-owed ops device bits version v strength scale vendor_scale none callback =
      let known = get_capabilities-owed c ops bits version v in
      let P = OwesReply (owed c v + weight c callback) in
      if_holds P (not (is_some (get_capabilities ops bits version v).1)) (λ a. omega arith)
        (λ a.
          if_holds P
            (not
              (has_capability (get_capabilities ops bits version v).1 bits.perform_vendor_effects))
            (λ b. omega arith)
            (λ b.
              if_holds P
                (not (is_strength strength)
                  || ops.is_negative scale
                  || ops.is_negative vendor_scale)
                (λ d. omega arith) (λ d. omega arith)))
  perform_vendor_effect-owed ops device bits version v strength scale vendor_scale
        (some duration_ms) callback =
      let known = get_capabilities-owed c ops bits version v in
      let P = OwesReply (owed c v + weight c callback) in
      if_holds P (not (is_some (get_capabilities ops bits version v).1)) (λ a. omega arith)
        (λ a.
          if_holds P
            (not
              (has_capability (get_capabilities ops bits version v).1 bits.perform_vendor_effects))
            (λ b. omega arith)
            (λ b.
              if_holds P
                (not (is_strength strength)
                  || ops.is_negative scale
                  || ops.is_negative vendor_scale)
                (λ d. omega arith)
                (λ d.
                  if_holds P (not (ltb_ℤ (pos 0) duration_ms)) (λ e. omega arith)
                    (λ e.
                      let before = (get_capabilities ops bits version v).0 in
                      let amplitude = vendor_amplitude ops strength scale vendor_scale in
                      let uploaded = (upload_effect ops device before duration_ms amplitude).0 in
                      dispatch_as v (play_effect uploaded) duration_ms callback ok (
                        play_effect-owed c uploaded
                        ∙ upload_effect-owed c ops device before duration_ms amplitude
                        ∙ known)))))

  pub set_amplitude-owed :
      (ops : FloatOps) (bits : CapBits) (version : Option ℕ) (v : Vibrator) (amplitude : ℕ)
      → OwesReply (owed c v) (set_amplitude ops bits version v amplitude)
  unfolding set_amplitude
  set_amplitude-owed ops bits version v amplitude =
      let known = get_capabilities-owed c ops bits version v in
      let P = OwesReply (owed c v) in
      if_holds P (ops.at_most_zero amplitude || ops.above_one amplitude) (λ a. omega arith)
        (λ a.
          if_holds P (not (is_some (get_capabilities ops bits version v).1)) (λ b. omega arith)
            (λ b.
              if_holds P
                (not (
                  has_capability (get_capabilities ops bits version v).1 (
                    if v.external_control_enabled
                    then bits.external_amplitude_control
                    else bits.amplitude_control)))
                (λ d. omega arith) (λ d. omega arith)))

  pub set_external_control-owed :
      (ops : FloatOps) (bits : CapBits) (version : Option ℕ) (v : Vibrator) (enabled : Bool)
      → OwesReply (owed c v) (set_external_control ops bits version v enabled)
  unfolding set_external_control
  set_external_control-owed ops bits version v enabled =
      let known = get_capabilities-owed c ops bits version v in
      let stopped : owed c (
            if enabled
            then (get_capabilities ops bits version v).0
            else stop_effect (get_capabilities ops bits version v).0)
          ≡ owed c v =
        if_holds (Owes c (owed c v)) enabled (λ on. known)
          (λ off. stop_effect-owed c (get_capabilities ops bits version v).0 ∙ known) in
      let P = OwesReply (owed c v) in
      if_holds P (not (is_some (get_capabilities ops bits version v).1)) (λ b. omega arith)
        (λ b.
          if_holds P
            (not (has_capability (get_capabilities ops bits version v).1 bits.external_control))
            (λ d. omega arith) (λ d. omega arith))
