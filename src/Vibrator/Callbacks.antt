-- ===== src/Vibrator/Callbacks.antt =====
-- interfaces/vibrator/mainline/Vibrator.cpp: how often a callback is completed.
use android_hardware_mainlin.Prelude.{
  ℕ, ◌+◌, ◌≤◌, ◌≡◌, Bool, true, false, Option, none, List, ◌∷◌, ◌++◌, arith, if◌then◌else◌, nat_key,
  bytes_key,
}
use android_hardware_mainlin.Vibrator.State.{
  FloatOps, Device, CapBits, Vibrator, Action, upload_action, compose_upload_action, play_action,
  stop_action, sleep_action, finish_action, complete_action,
}
use android_hardware_mainlin.Vibrator.Requests.{always_on_enable}
use android_hardware_mainlin.Vibrator.Threads.{
  call, same_callback, compose_amplitude, run_action, finish, Request, on_request, off_request,
  perform_request, vendor_request, compose_request, amplitude_request, external_request,
  global_request, always_on_request, handle, callback_of, IsRun, start, called, stepped, raced,
}
use android_hardware_mainlin.Vibrator.Owed.{
  weight, count, pending, in_threads, owed, count-call, in_threads-append, stop_effect-owed,
  upload_effect-owed, play_effect-owed,
}
use android_hardware_mainlin.Vibrator.Replies.{
  OwesReply, off-owed, set_global-owed, on-owed, perform-owed, compose-owed,
  perform_vendor_effect-owed, set_amplitude-owed, set_external_control-owed,
}

taken :
    (c : ℕ) (same : Bool) (callback : Option ℕ)
    → weight c (if same then callback else none) + weight c (if same then none else callback)
      ≡ weight c callback
taken c true callback = omega arith
taken c false callback = omega arith

module _ (c : ℕ) where
  finish-owed : (v : Vibrator) (callback : Option ℕ) → owed c (finish v callback) ≡ owed c v
  unfolding finish
  finish-owed v callback =
      let same = same_callback v.vibration_callback callback in
      let completed = call (if same then v.vibration_callback else none) v.completed in
      let inner = count-call c (if same then v.vibration_callback else none) v.completed in
      let outer = count-call c v.global_vibration_callback completed in
      let kept : weight c (if same then v.vibration_callback else none)
            + weight c (if same then none else v.vibration_callback)
          ≡ weight c v.vibration_callback =
        taken c same v.vibration_callback in
      omega arith

  -- A step completes what it is to complete, and nothing else.
  run_action-owed :
      (ops : FloatOps) (device : Device) (v : Vibrator) (action : Action)
      → owed c (run_action ops device v action) ≡ owed c v + pending c action
  unfolding run_action
  run_action-owed ops device v (upload_action duration_ms amplitude) =
      let done = upload_effect-owed c ops device v duration_ms amplitude in omega arith
  run_action-owed ops device v (compose_upload_action duration_ms scale) =
      let done = upload_effect-owed c ops device v duration_ms (compose_amplitude ops v scale) in
      omega arith
  run_action-owed ops device v play_action = let done = play_effect-owed c v in omega arith
  run_action-owed ops device v stop_action = let done = stop_effect-owed c v in omega arith
  run_action-owed ops device v (sleep_action duration_ms) = omega arith
  run_action-owed ops device v (finish_action callback) =
      let done = finish-owed v callback in omega arith
  run_action-owed ops device v (complete_action callback) =
      let done = count-call c callback v.completed in omega arith

module _ (ops : FloatOps) (device : Device) (bits : CapBits) (version : Option ℕ) where
  handle-owed :
      (c : ℕ) (v : Vibrator) (request : Request)
      → OwesReply c
          (owed c v + weight c (callback_of ops device bits version request))
          (handle ops device bits version v request)
  unfolding handle always_on_enable
  handle-owed c v (on_request timeout_ms callback) = on-owed c ops device v timeout_ms callback
  handle-owed c v off_request = let left = off-owed c v in omega arith
  handle-owed c v (perform_request effect strength callback) =
      perform-owed c v effect strength callback
  handle-owed c v (vendor_request strength scale vendor_scale duration callback) =
      perform_vendor_effect-owed c ops device bits version v strength scale vendor_scale duration
        callback
  handle-owed c v (compose_request composite callback) = compose-owed c ops v composite callback
  handle-owed c v (amplitude_request amplitude) =
      let left = set_amplitude-owed c ops bits version v amplitude in omega arith
  handle-owed c v (external_request enabled) =
      let left = set_external_control-owed c ops bits version v enabled in omega arith
  handle-owed c v (global_request callback) = set_global-owed c v callback
  handle-owed c v (always_on_request effect) = omega arith

  run-owed :
      (c : ℕ) (initial v : Vibrator) (threads : List (List Action)) (passed : List ℕ)
      → IsRun ops device bits version initial v threads passed
      → owed c v + in_threads c threads ≤ owed c initial + count c passed
  run-owed c initial v threads passed start = omega arith
  run-owed c initial v threads passed (called before running given request run) =
      let so_far = run-owed c initial before running given run in
      let left = handle-owed c before request in
      let all =
        in_threads-append c (handle ops device bits version before request).threads running in
      let given_one = count-call c (callback_of ops device bits version request) given in
      omega arith
  run-owed c initial v threads passed (stepped w before after action rest given run) =
      let so_far = run-owed c initial w (before ++ (action ∷ rest) ∷ after) given run in
      let left = run_action-owed c ops device w action in
      let old = in_threads-append c before ((action ∷ rest) ∷ after) in
      let new = in_threads-append c before (rest ∷ after) in omega arith
  run-owed c initial v threads passed (raced w running given commands last_effect_id run) =
      run-owed c initial w running given run

  -- Whatever calls come, however the steps of their threads interleave, and whatever races leave on the
  -- input device: a callback is completed at most as often as calls passed it in, besides the times that
  -- it was completed or stored at first.
  pub run-completed :
      (c : ℕ) (initial v : Vibrator) (threads : List (List Action)) (passed : List ℕ)
      → IsRun ops device bits version initial v threads passed
      → count c v.completed ≤ owed c initial + count c passed
  run-completed c initial v threads passed run =
      let held = run-owed c initial v threads passed run in omega arith
