-- ===== src/Examples/Vibrations.antt =====
-- interfaces/vibrator/mainline: a vibration that its thread ends.
use android_hardware_mainlin.Prelude.{
  ℕ, ◌+◌, ◌≤◌, ◌≡◌, refl, true, false, ◌&&◌, ◌||◌, none, some, [], ◌∷◌, ltb, leb, ◌==◌,
  if◌then◌else◌, length, pos, negsuc, nat_key, bytes_key,
}
use android_hardware_mainlin.Vibrator.Endings.{run_threads, threads-completed}
use android_hardware_mainlin.Vibrator.State.{
  double_click, medium_strength, FloatOps, Device, CapBits, Vibrator, sleep_action, finish_action,
}
use android_hardware_mainlin.Vibrator.Device.{f_one}
use android_hardware_mainlin.Vibrator.Commands.{HoldsLast, loaded}
use android_hardware_mainlin.Vibrator.Loaded.{run-HoldsLast}
use android_hardware_mainlin.Vibrator.Requests.{
  perform, is_supported_effect, is_strength, on, dispatch_vibrate,
}
use android_hardware_mainlin.Vibrator.Threads.{
  call, finish, run_action, handle, on_request, off_request, IsRun, start, called, stepped,
}
use android_hardware_mainlin.Vibrator.Callbacks.{run-completed}
use android_hardware_mainlin.Vibrator.Owed.{count, owed}

-- Patterns below 0x80000000 are ordered as the floats are.
abbrev float_ops : FloatOps
float_ops = record {
  is_positive = λ x. ltb 0 x && ltb x 0x80000000;
  at_most_zero = λ x. x == 0 || leb 0x80000000 x;
  is_negative = λ x. ltb 0x80000000 x;
  above_one = λ x. ltb 0x3f800000 x && ltb x 0x80000000;
  times = λ x y. if y == 0x3f800000 then x else y;
  to_uint16 = λ x. if x == 0x3f800000 then 0xffff else 0;
}

-- It gives the effects the numbers 0, 1, ...
abbrev input_device : Device
input_device = record { upload = λ commands effect_length magnitude. some (length commands) }

abbrev cap_bits : CapBits
cap_bits = record {
  on_callback = 1;
  perform_callback = 2;
  amplitude_control = 4;
  compose_effects = 32;
  always_on_control = 64;
  get_resonant_frequency = 128;
  get_q_factor = 256;
  perform_vendor_effects = 2048;
  external_control = 8;
  external_amplitude_control = 16;
}

abbrev resting : Vibrator
resting = record {
  has_device = true;
  last_effect_id = negsuc 0;
  is_vibrating = false;
  vibration_callback = none;
  global_vibration_callback = none;
  current_amplitude = f_one;
  external_control_enabled = false;
  capabilities = 0;
  resonant_frequency = 0;
  q_factor = 0;
  durations = record {
    click_ms = pos 10;
    double_click_ms = pos 30;
    tick_ms = pos 5;
    thud_ms = pos 20;
    pop_ms = pos 10;
    heavy_click_ms = pos 20;
    texture_tick_ms = pos 5;
    ringtone_ms = pos 1000;
  };
  commands = [];
  completed = [];
}

abbrev ringing : Vibrator
ringing =
    (handle float_ops input_device cap_bits (some 3) resting
      (on_request (pos 100) (some 7))).vibrator

abbrev rung : Vibrator
rung = run_action float_ops input_device ringing (finish_action (some 7))

abbrev rung_run : IsRun float_ops input_device cap_bits (some 3) resting rung ([] ∷ []) (7 ∷ [])
unfolding handle on dispatch_vibrate run_action
rung_run = stepped ringing [] [] (finish_action (some 7)) [] (7 ∷ []) (
    stepped ringing [] [] (sleep_action (pos 100)) (finish_action (some 7) ∷ []) (7 ∷ [])
      (called resting [] [] (on_request (pos 100) (some 7)) start))

run-HoldsLast_example : HoldsLast rung
unfolding rung_run
run-HoldsLast_example =
    run-HoldsLast float_ops input_device cap_bits (some 3) resting rung ([] ∷ []) (7 ∷ [])
      record { one_loaded = refl } rung_run tt

run-completed_example : count 7 rung.completed ≤ owed 7 resting + count 7 (7 ∷ [])
run-completed_example =
    run-completed float_ops input_device cap_bits (some 3) 7 resting rung ([] ∷ []) (7 ∷ [])
      rung_run

rung_completed : rung.completed ≡ 7 ∷ []
unfolding handle on dispatch_vibrate run_action finish
rung_completed = refl

rung_loaded : loaded [] rung.commands ≡ 0 ∷ []
unfolding run_action handle
rung_loaded = refl

abbrev asked : Vibrator → ℕ → Vibrator
asked v callback =
    (handle float_ops input_device cap_bits (some 3) v
      (on_request (pos 100) (some callback))).vibrator

abbrev finished : Vibrator → ℕ → Vibrator
finished v callback = run_action float_ops input_device v (finish_action (some callback))

abbrev turned_off : Vibrator → Vibrator
turned_off v = (handle float_ops input_device cap_bits (some 3) v off_request).vibrator

-- The thread of callback 7, which `off` ended, ends the vibration of 8 as well: 9 replaces it, and 8 is
-- never completed.
overtaken :
    (finished
      (finished (asked (finished (asked (turned_off (asked resting 7)) 8) 7) 9) 8)
      9).completed
    ≡ 9 ∷ []
unfolding run_action handle
overtaken = refl

abbrev with_global : Vibrator
with_global = record resting { global_vibration_callback = some 5 }

threads-completed_example :
    ((run_threads float_ops input_device
        (on float_ops input_device with_global (pos 100) (some 7)).vibrator
        (on float_ops input_device with_global (pos 100) (some 7)).threads).completed
      ≡ call (some 5) (call (some 7) []))
    × ((run_threads float_ops input_device
          (perform with_global double_click medium_strength (some 7)).vibrator
          (perform with_global double_click medium_strength (some 7)).threads).completed
        ≡ call (some 5) (call (some 7) []))
unfolding is_supported_effect is_strength
threads-completed_example =
    threads-completed float_ops input_device with_global (pos 100) double_click medium_strength
      (some 7) refl refl refl
