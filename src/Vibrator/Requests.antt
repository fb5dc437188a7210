-- ===== src/Vibrator/Requests.antt =====
-- interfaces/vibrator/mainline/Vibrator.cpp: the calls of the framework. A call is one step (main.cpp
-- has one binder thread). It uses the input device without the mutex: Threads says what may happen when
-- a thread uses it at the same time.
use android_hardware_mainlin.Prelude.{
  ℕ, ◌+◌, ◌/◌, Bool, true, false, not, ◌||◌, Option, none, some, List, [], ◌∷◌, ltb, if◌then◌else◌,
  length, ℤ, pos, negsuc, sub_ℕ, ltb_ℤ, nat_key, bytes_key,
}
use android_hardware_mainlin.Vibrator.State.{
  Effect, double_click, ringtone, other_effect, EffectStrength, other_strength, CompositePrimitive,
  noop, other_primitive, CompositeEffect, FloatOps, Device, Status, ok, unsupported_operation,
  illegal_argument, Vibrator, Action, upload_action, compose_upload_action, play_action,
  stop_action, sleep_action, finish_action, complete_action, Reply, reply,
}
use android_hardware_mainlin.Vibrator.Device.{
  get_amplitude_for_strength, get_effect_duration_ms, get_primitive_duration_ms, stop_effect,
  upload_effect, play_effect,
}

abbrev pub error_invalid_duration : ℕ
error_invalid_duration = 1

abbrev pub compose_delay_max_ms : ℕ
compose_delay_max_ms = 1000

abbrev pub compose_size_max : ℕ
compose_size_max = 256

-- dispatchVibrate: the state, and the thread that waits.
unfoldable pub dispatch_vibrate : Vibrator → ℤ → Option ℕ → Status → Reply
dispatch_vibrate v timeout_ms callback status = if v.is_vibrating then reply v status else record {
  vibrator = record v { vibration_callback = callback; is_vibrating = true };
  threads = (sleep_action timeout_ms ∷ finish_action callback ∷ []) ∷ [];
  status = status;
}

unfoldable pub set_global_vibration_callback : Vibrator → Option ℕ → Reply
set_global_vibration_callback v callback =
    if v.is_vibrating
    then reply (record v { global_vibration_callback = callback }) ok
    else record { vibrator = v; threads = (complete_action callback ∷ []) ∷ []; status = ok }

unfoldable pub off : Vibrator → Reply
unfolding stop_effect
off v = record {
  vibrator = stop_effect (record v {
    is_vibrating = false;
    vibration_callback = none;
    global_vibration_callback = none;
  });
  threads =
      (complete_action v.vibration_callback ∷ complete_action v.global_vibration_callback ∷ [])
      ∷ [];
  status = ok;
}

unfoldable pub on : FloatOps → Device → Vibrator → ℤ → Option ℕ → Reply
unfolding upload_effect play_effect dispatch_vibrate
on ops device v timeout_ms callback =
    let uploaded = upload_effect ops device v timeout_ms v.current_amplitude in
    dispatch_vibrate (if uploaded.1 then play_effect uploaded.0 else uploaded.0) timeout_ms callback
      ok

-- getSupportedEffects.
unfoldable pub is_supported_effect : Effect → Bool
is_supported_effect (ringtone n) = false
is_supported_effect (other_effect n) = false
is_supported_effect _ = true

unfoldable pub is_strength : EffectStrength → Bool
is_strength (other_strength n) = false
is_strength _ = true

unfoldable pub is_double_click : Effect → Bool
is_double_click double_click = true
is_double_click _ = false

-- int division by 3, towards zero.
unfoldable pub third : ℤ → ℤ
third (pos n) = pos (n / 3)
third (negsuc n) = sub_ℕ 0 ((n + 1) / 3)

abbrev pub play_for : ℤ → ℕ → List Action → List Action
play_for duration_ms amplitude rest =
    upload_action duration_ms amplitude
    ∷ play_action
    ∷ sleep_action duration_ms
    ∷ stop_action
    ∷ rest

unfoldable pub perform_thread : Effect → ℤ → ℕ → Option ℕ → List Action
unfolding is_double_click third
perform_thread effect duration_ms amplitude callback =
    let last = finish_action callback ∷ [] in
    if is_double_click effect
    then play_for (third duration_ms) amplitude
        (sleep_action (third duration_ms) ∷ play_for (third duration_ms) amplitude last)
    else play_for duration_ms amplitude last

unfoldable pub perform : Vibrator → Effect → EffectStrength → Option ℕ → Reply
unfolding is_supported_effect is_strength get_effect_duration_ms get_amplitude_for_strength
    perform_thread
perform v effect strength callback =
    if not (is_supported_effect effect) || not (is_strength strength)
    then reply v unsupported_operation
    else if v.is_vibrating
    then reply v ok
    else record {
      vibrator = record v { vibration_callback = callback; is_vibrating = true };
      threads =
          perform_thread effect (get_effect_duration_ms v.durations effect)
            (get_amplitude_for_strength strength) callback
          ∷ [];
      status = ok;
    }

-- `*_aidl_return` of perform.
unfoldable pub perform_duration : Vibrator → Effect → EffectStrength → Option ℤ
unfolding is_supported_effect is_strength get_effect_duration_ms
perform_duration v effect strength =
    if not (is_supported_effect effect) || not (is_strength strength)
    then none
    else if v.is_vibrating
    then some (pos 0)
    else some (get_effect_duration_ms v.durations effect)

-- getSupportedPrimitives.
unfoldable pub is_supported_primitive : CompositePrimitive → Bool
is_supported_primitive (other_primitive n) = false
is_supported_primitive _ = true

unfoldable pub is_noop : CompositePrimitive → Bool
is_noop noop = true
is_noop _ = false

-- What the loop of compose returns early with.
unfoldable pub check_composite : FloatOps → List CompositeEffect → Status
unfolding is_supported_primitive
check_composite ops [] = ok
check_composite ops (e ∷ rest) =
    let later = check_composite ops rest in
    if ltb_ℤ (pos compose_delay_max_ms) e.delay_ms
    then illegal_argument
    else if ops.is_negative e.scale || ops.above_one e.scale
    then illegal_argument
    else if not (is_supported_primitive e.primitive)
    then unsupported_operation
    else later

unfoldable pub compose_thread : List CompositeEffect → Option ℕ → List Action
unfolding is_noop get_primitive_duration_ms
compose_thread [] callback = complete_action callback ∷ []
compose_thread (e ∷ rest) callback =
    let more = compose_thread rest callback in
    let duration_ms = get_primitive_duration_ms e.primitive in
    let played =
      if is_noop e.primitive
      then more
      else compose_upload_action duration_ms e.scale
        ∷ play_action
        ∷ sleep_action duration_ms
        ∷ stop_action
        ∷ more in
    if ltb_ℤ (pos 0) e.delay_ms then sleep_action e.delay_ms ∷ played else played

abbrev pub is_ok : Status → Bool
is_ok ok = true
is_ok _ = false

unfoldable pub compose : FloatOps → Vibrator → List CompositeEffect → Option ℕ → Reply
unfolding check_composite compose_thread
compose ops v composite callback =
    if ltb compose_size_max (length composite)
    then reply v illegal_argument
    else if not (is_ok (check_composite ops composite))
    then reply v (check_composite ops composite)
    else record { vibrator = v; threads = compose_thread composite callback ∷ []; status = ok }

unfoldable pub always_on_enable : Vibrator → Effect → Reply
unfolding is_supported_effect
always_on_enable v effect =
    reply v (if is_supported_effect effect then ok else unsupported_operation)
