-- ===== src/Vibrator/Loaded.antt =====
-- interfaces/vibrator/mainline/Vibrator.cpp: the effects that the device holds, if it takes every
-- command that is written to it.
use android_hardware_mainlin.Prelude.{
  ℕ, Bool, false, not, ◌||◌, Option, none, some, List, ◌∷◌, ◌++◌, ltb, ◌==◌, if◌then◌else◌, is_some,
  length, ℤ, pos, ltb_ℤ, nat_key, bytes_key, if_holds,
}
use android_hardware_mainlin.Vibrator.State.{
  Effect, CompositeEffect, Status, ok, FloatOps, Device, CapBits, Vibrator, Action, upload_action,
  compose_upload_action, play_action, stop_action, sleep_action, finish_action, complete_action,
  Reply, EffectStrength,
}
use android_hardware_mainlin.Vibrator.Device.{upload_effect}
use android_hardware_mainlin.Vibrator.Capabilities.{
  get_capabilities, has_capability, vendor_amplitude, perform_vendor_effect, set_amplitude,
  set_external_control,
}
use android_hardware_mainlin.Vibrator.Requests.{
  is_supported_effect, is_strength, compose_size_max, is_ok, check_composite, dispatch_vibrate,
  set_global_vibration_callback, off, on, perform, compose, always_on_enable,
}
use android_hardware_mainlin.Vibrator.Threads.{
  run_action, finish, Request, on_request, off_request, perform_request, vendor_request,
  compose_request, amplitude_request, external_request, global_request, always_on_request, handle,
  IsRun, NeverRaces, start, called, stepped, raced,
}
use android_hardware_mainlin.Vibrator.Commands.{
  HoldsLast, stop_effect-HoldsLast, upload_effect-HoldsLast, play_effect-HoldsLast,
}

abbrev HoldsReply : Reply → Type 0
HoldsReply r = HoldsLast r.vibrator

dispatch_vibrate-HoldsLast :
    (v : Vibrator) (timeout_ms : ℤ) (callback : Option ℕ) (status : Status)
    → HoldsLast v
    → HoldsReply (dispatch_vibrate v timeout_ms callback status)
unfolding dispatch_vibrate
dispatch_vibrate-HoldsLast v timeout_ms callback status h =
    if_holds HoldsReply v.is_vibrating (λ busy. h) (λ idle. record { one_loaded = h.one_loaded })

on-HoldsLast :
    (ops : FloatOps) (device : Device) (v : Vibrator) (timeout_ms : ℤ) (callback : Option ℕ)
    → HoldsLast v
    → HoldsReply (on ops device v timeout_ms callback)
unfolding on
on-HoldsLast ops device v timeout_ms callback h =
    let result = upload_effect ops device v timeout_ms v.current_amplitude in
    let after = upload_effect-HoldsLast ops device v timeout_ms v.current_amplitude h in
    dispatch_vibrate-HoldsLast _ timeout_ms callback ok
      (if_holds HoldsLast result.1 (λ done. play_effect-HoldsLast result.0 after) (λ failed. after))

off-HoldsLast : (v : Vibrator) → HoldsLast v → HoldsReply (off v)
unfolding off
off-HoldsLast v h =
    stop_effect-HoldsLast
      (record v {
        is_vibrating = false;
        vibration_callback = none;
        global_vibration_callback = none;
      })
      record { one_loaded = h.one_loaded }

perform-HoldsLast :
    (v : Vibrator) (effect : Effect) (strength : EffectStrength) (callback : Option ℕ)
    → HoldsLast v
    → HoldsReply (perform v effect strength callback)
unfolding perform
perform-HoldsLast v effect strength callback h =
    if_holds HoldsReply (not (is_supported_effect effect) || not (is_strength strength))
      (λ refused. h)
      (λ fine.
        if_holds HoldsReply v.is_vibrating (λ busy. h)
          (λ idle. record { one_loaded = h.one_loaded }))

abbrev HoldsKnown : Vibrator × Option ℕ → Type 0
HoldsKnown known = HoldsLast known.0

get_capabilities-HoldsLast :
    (ops : FloatOps) (bits : CapBits) (version : Option ℕ) (v : Vibrator)
    → HoldsLast v
    → HoldsLast (get_capabilities ops bits version v).0
unfolding get_capabilities
get_capabilities-HoldsLast ops bits none v h =
    if_holds HoldsKnown (not (v.capabilities == 0)) (λ known. h) (λ unknown. h)
get_capabilities-HoldsLast ops bits (some number) v h =
    if_holds HoldsKnown (not (v.capabilities == 0)) (λ known. h)
      (λ unknown. record { one_loaded = h.one_loaded })

perform_vendor_effect-HoldsLast :
    (ops : FloatOps) (device : Device) (bits : CapBits) (version : Option ℕ) (v : Vibrator)
    (strength : EffectStrength) (scale vendor_scale : ℕ) (duration : Option ℤ) (callback : Option ℕ)
    → HoldsLast v
    → HoldsReply (
        perform_vendor_effect ops device bits version v strength scale vendor_scale duration
          callback)
unfolding perform_vendor_effect
perform_vendor_effect-HoldsLast ops device bits version v strength scale vendor_scale none callback
      h =
    let known = get_capabilities-HoldsLast ops bits version v h in
    if_holds HoldsReply (not (is_some (get_capabilities ops bits version v).1)) (λ a. known)
      (λ a.
        if_holds HoldsReply
          (not (has_capability (get_capabilities ops bits version v).1 bits.perform_vendor_effects))
          (λ b. known)
          (λ b.
            if_holds HoldsReply
              (not (is_strength strength) || ops.is_negative scale || ops.is_negative vendor_scale)
              (λ c. known) (λ c. known)))
perform_vendor_effect-HoldsLast ops device bits version v strength scale vendor_scale
      (some duration_ms) callback h =
    let known = get_capabilities-HoldsLast ops bits version v h in
    if_holds HoldsReply (not (is_some (get_capabilities ops bits version v).1)) (λ a. known)
      (λ a.
        if_holds HoldsReply
          (not (has_capability (get_capabilities ops bits version v).1 bits.perform_vendor_effects))
          (λ b. known)
          (λ b.
            if_holds HoldsReply
              (not (is_strength strength) || ops.is_negative scale || ops.is_negative vendor_scale)
              (λ c. known)
              (λ c.
                if_holds HoldsReply (not (ltb_ℤ (pos 0) duration_ms)) (λ d. known)
                  (λ d. dispatch_vibrate-HoldsLast _ duration_ms callback ok (
                    play_effect-HoldsLast _ (
                      upload_effect-HoldsLast ops device _ duration_ms
                        (vendor_amplitude ops strength scale vendor_scale) known))))))

set_amplitude-HoldsLast :
    (ops : FloatOps) (bits : CapBits) (version : Option ℕ) (v : Vibrator) (amplitude : ℕ)
    → HoldsLast v
    → HoldsReply (set_amplitude ops bits version v amplitude)
unfolding set_amplitude
set_amplitude-HoldsLast ops bits version v amplitude h =
    let known = get_capabilities-HoldsLast ops bits version v h in
    if_holds HoldsReply (ops.at_most_zero amplitude || ops.above_one amplitude) (λ a. h)
      (λ a.
        if_holds HoldsReply (not (is_some (get_capabilities ops bits version v).1)) (λ b. known)
          (λ b.
            if_holds HoldsReply
              (not (
                has_capability (get_capabilities ops bits version v).1 (
                  if v.external_control_enabled
                  then bits.external_amplitude_control
                  else bits.amplitude_control)))
              (λ c. known) (λ c. record { one_loaded = known.one_loaded })))

set_external_control-HoldsLast :
    (ops : FloatOps) (bits : CapBits) (version : Option ℕ) (v : Vibrator) (enabled : Bool)
    → HoldsLast v
    → HoldsReply (set_external_control ops bits version v enabled)
unfolding set_external_control
set_external_control-HoldsLast ops bits version v enabled h =
    let known = get_capabilities-HoldsLast ops bits version v h in
    if_holds HoldsReply (not (is_some (get_capabilities ops bits version v).1)) (λ b. known)
      (λ b.
        if_holds HoldsReply
          (not (has_capability (get_capabilities ops bits version v).1 bits.external_control))
          (λ c. known)
          (λ c. record {
            one_loaded =
                (if_holds HoldsLast enabled (λ e. known)
                  (λ d. stop_effect-HoldsLast _ known)).one_loaded;
          }))

compose-HoldsLast :
    (ops : FloatOps) (v : Vibrator) (composite : List CompositeEffect) (callback : Option ℕ)
    → HoldsLast v
    → HoldsReply (compose ops v composite callback)
unfolding compose
compose-HoldsLast ops v composite callback h =
    if_holds HoldsReply (ltb compose_size_max (length composite)) (λ a. h)
      (λ a. if_holds HoldsReply (not (is_ok (check_composite ops composite))) (λ b. h) (λ b. h))

set_global-HoldsLast :
    (v : Vibrator) (callback : Option ℕ)
    → HoldsLast v
    → HoldsReply (set_global_vibration_callback v callback)
unfolding set_global_vibration_callback
set_global-HoldsLast v callback h =
    if_holds HoldsReply v.is_vibrating (λ busy. record { one_loaded = h.one_loaded }) (λ idle. h)

run_action-HoldsLast :
    (ops : FloatOps) (device : Device) (v : Vibrator) (action : Action)
    → HoldsLast v
    → HoldsLast (run_action ops device v action)
unfolding run_action finish
run_action-HoldsLast ops device v (upload_action duration_ms amplitude) h =
    upload_effect-HoldsLast ops device v duration_ms amplitude h
run_action-HoldsLast ops device v (compose_upload_action duration_ms scale) h =
    upload_effect-HoldsLast ops device v duration_ms _ h
run_action-HoldsLast ops device v play_action h = play_effect-HoldsLast v h
run_action-HoldsLast ops device v stop_action h = stop_effect-HoldsLast v h
run_action-HoldsLast ops device v (sleep_action duration_ms) h = h
run_action-HoldsLast ops device v (finish_action callback) h = record { one_loaded = h.one_loaded }
run_action-HoldsLast ops device v (complete_action callback) h = record {
  one_loaded = h.one_loaded;
}

module _ (ops : FloatOps) (device : Device) (bits : CapBits) (version : Option ℕ) where
  handle-HoldsLast :
      (v : Vibrator) (request : Request)
      → HoldsLast v
      → HoldsReply (handle ops device bits version v request)
  unfolding handle always_on_enable
  handle-HoldsLast v (on_request timeout_ms callback) h =
      on-HoldsLast ops device v timeout_ms callback h
  handle-HoldsLast v off_request h = off-HoldsLast v h
  handle-HoldsLast v (perform_request effect strength callback) h =
      perform-HoldsLast v effect strength callback h
  handle-HoldsLast v (vendor_request strength scale vendor_scale duration callback) h =
      perform_vendor_effect-HoldsLast ops device bits version v strength scale vendor_scale duration
        callback h
  handle-HoldsLast v (compose_request composite callback) h =
      compose-HoldsLast ops v composite callback h
  handle-HoldsLast v (amplitude_request amplitude) h =
      set_amplitude-HoldsLast ops bits version v amplitude h
  handle-HoldsLast v (external_request enabled) h =
      set_external_control-HoldsLast ops bits version v enabled h
  handle-HoldsLast v (global_request callback) h = set_global-HoldsLast v callback h
  handle-HoldsLast v (always_on_request effect) h = h

  -- Whatever calls come and however the steps of their threads interleave, if no two uses of the input
  -- device overlap: the effects that the commands leave on the device are the one of mLastEffectId, or
  -- none where that is negative, if that is so at first.
  pub run-HoldsLast :
      (initial v : Vibrator) (threads : List (List Action)) (passed : List ℕ)
      → HoldsLast initial
      → (run : IsRun ops device bits version initial v threads passed)
      → NeverRaces ops device bits version initial v threads passed run
      → HoldsLast v
  run-HoldsLast initial v threads passed h start alone = h
  run-HoldsLast initial v threads passed h (called before running given request run) alone =
      handle-HoldsLast before request (run-HoldsLast initial before running given h run alone)
  run-HoldsLast initial v threads passed h (stepped w before after action rest given run) alone =
      run_action-HoldsLast ops device w action
        (run-HoldsLast initial w (before ++ (action ∷ rest) ∷ after) given h run alone)
  run-HoldsLast initial v threads passed h (raced w running given commands last_effect_id run)
        alone =
      absurd alone
