-- ===== src/Vibrator/Threads.antt =====
-- interfaces/vibrator/mainline/Vibrator.cpp: the steps of the threads, and the runs of calls and steps
-- in any order, with the races on the input device.
use android_hardware_mainlin.Prelude.{
  ℕ, Bool, true, false, Option, none, some, List, [], ◌∷◌, ◌++◌, ◌==◌, if◌then◌else◌, ℤ, nat_key,
  bytes_key,
}
use android_hardware_mainlin.Vibrator.State.{
  Effect, EffectStrength, CompositeEffect, FloatOps, Device, CapBits, Vibrator, Command, Action,
  upload_action, compose_upload_action, play_action, stop_action, sleep_action, finish_action,
  complete_action, Reply,
}
use android_hardware_mainlin.Vibrator.Device.{stop_effect, upload_effect, play_effect}
use android_hardware_mainlin.Vibrator.Capabilities.{
  perform_vendor_effect, set_amplitude, set_external_control,
}
use android_hardware_mainlin.Vibrator.Requests.{
  set_global_vibration_callback, off, on, perform, compose, always_on_enable,
}

abbrev pub call : Option ℕ → List ℕ → List ℕ
call none completed = completed
call (some callback) completed = callback ∷ completed

-- Two pointers are the same.
unfoldable pub same_callback : Option ℕ → Option ℕ → Bool
same_callback none none = true
same_callback none (some b) = false
same_callback (some a) none = false
same_callback (some a) (some b) = a == b

-- The end of a vibration: both callbacks are taken under the mutex and called after it.
unfoldable pub finish : Vibrator → Option ℕ → Vibrator
unfolding same_callback
finish v callback =
    let same = same_callback v.vibration_callback callback in
    record v {
      is_vibrating = false;
      vibration_callback = if same then none else v.vibration_callback;
      global_vibration_callback = none;
      completed =
          call v.global_vibration_callback
            (call (if same then v.vibration_callback else none) v.completed);
    }

-- `e.scale > 0.0f ? e.scale * mCurrentAmplitude : 0.0f`.
unfoldable pub compose_amplitude : FloatOps → Vibrator → ℕ → ℕ
compose_amplitude ops v scale =
    if ops.is_positive scale then ops.times scale v.current_amplitude else 0

unfoldable pub run_action : FloatOps → Device → Vibrator → Action → Vibrator
unfolding upload_effect play_effect stop_effect finish compose_amplitude
run_action ops device v (upload_action duration_ms amplitude) =
    (upload_effect ops device v duration_ms amplitude).0
run_action ops device v (compose_upload_action duration_ms scale) =
    (upload_effect ops device v duration_ms (compose_amplitude ops v scale)).0
run_action ops device v play_action = play_effect v
run_action ops device v stop_action = stop_effect v
run_action ops device v (sleep_action duration_ms) = v
run_action ops device v (finish_action callback) = finish v callback
run_action ops device v (complete_action callback) = record v {
  completed = call callback v.completed;
}

pub data Request : Type 0 where
  on_request : ℤ → Option ℕ → Request
  off_request : Request
  perform_request : Effect → EffectStrength → Option ℕ → Request
  vendor_request : EffectStrength → (scale vendor_scale : ℕ) → Option ℤ → Option ℕ → Request
  compose_request : List CompositeEffect → Option ℕ → Request
  amplitude_request : ℕ → Request
  external_request : Bool → Request
  global_request : Option ℕ → Request
  always_on_request : Effect → Request

module _ (ops : FloatOps) (device : Device) (bits : CapBits) (version : Option ℕ) where
  unfoldable pub handle : Vibrator → Request → Reply
  unfolding set_global_vibration_callback off on perform perform_vendor_effect set_amplitude
      set_external_control compose always_on_enable
  handle v (on_request timeout_ms callback) = on ops device v timeout_ms callback
  handle v off_request = off v
  handle v (perform_request effect strength callback) = perform v effect strength callback
  handle v (vendor_request strength scale vendor_scale duration callback) =
      perform_vendor_effect ops device bits version v strength scale vendor_scale duration callback
  handle v (compose_request composite callback) = compose ops v composite callback
  handle v (amplitude_request amplitude) = set_amplitude ops bits version v amplitude
  handle v (external_request enabled) = set_external_control ops bits version v enabled
  handle v (global_request callback) = set_global_vibration_callback v callback
  handle v (always_on_request effect) = always_on_enable v effect

  -- The callback that a request passes in.
  abbrev pub callback_of : Request → Option ℕ
  callback_of (on_request timeout_ms callback) = callback
  callback_of (perform_request effect strength callback) = callback
  callback_of (vendor_request strength scale vendor_scale duration callback) = callback
  callback_of (compose_request composite callback) = callback
  callback_of (global_request callback) = callback
  callback_of _ = none

  -- The state, the threads that are left, and the callbacks passed in so far. Any thread may take the
  -- next step, and a call may come at any time. Calls and steps change the callbacks under the mutex; a
  -- use of the input device that no other use overlaps is whole. Uses that overlap (`raced`), which the
  -- mutex does not keep apart, may leave any commands on the device and any mLastEffectId.
  pub data IsRun (initial : Vibrator) : Vibrator → List (List Action) → List ℕ → Type 0 where
    start : IsRun initial initial [] []
    called :
        (v : Vibrator) (threads : List (List Action)) (passed : List ℕ) (request : Request)
        → IsRun initial v threads passed
        → IsRun initial
            (handle v request).vibrator
            ((handle v request).threads ++ threads)
            (call (callback_of request) passed)
    stepped :
        (v : Vibrator) (before after : List (List Action)) (action : Action) (rest : List Action)
        (passed : List ℕ)
        → IsRun initial v (before ++ (action ∷ rest) ∷ after) passed
        → IsRun initial (run_action ops device v action) (before ++ rest ∷ after) passed
    raced :
        (v : Vibrator) (threads : List (List Action)) (passed : List ℕ) (commands : List Command)
        (last_effect_id : ℤ)
        → IsRun initial v threads passed
        → IsRun initial
            (record v { commands = commands; last_effect_id = last_effect_id })
            threads
            passed

  -- No two uses of the input device overlap.
  abbrev pub NeverRaces :
      (initial v : Vibrator) (threads : List (List Action)) (passed : List ℕ)
      → IsRun initial v threads passed
      → Type 0
  NeverRaces initial v threads passed start = Unit
  NeverRaces initial v threads passed (called before running given request run) =
      NeverRaces initial before running given run
  NeverRaces initial v threads passed (stepped w before after action rest given run) =
      NeverRaces initial w (before ++ (action ∷ rest) ∷ after) given run
  NeverRaces initial v threads passed (raced w running given commands last_effect_id run) = ⊥
