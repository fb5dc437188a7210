-- ===== src/Vibrator/Owed.antt =====
-- interfaces/vibrator/mainline/Vibrator.cpp: how often a callback was completed or is held to be, and
-- the effects on the input device, which leave that number alone.
use android_hardware_mainlin.Prelude.{
  ℕ, ◌+◌, ◌≡◌, refl, ◌∙◌, Bool, not, ◌||◌, Option, none, some, List, [], ◌∷◌, ◌++◌, arith, ◌==◌,
  if◌then◌else◌, length, ℤ, nat_key, bytes_key, if_holds,
}
use android_hardware_mainlin.Vibrator.State.{
  FloatOps, Device, CapBits, Vibrator, Action, complete_action,
}
use android_hardware_mainlin.Vibrator.Device.{
  below_zero, stop_effect, uploaded, upload_effect, play_effect, erase_effect,
}
use android_hardware_mainlin.Vibrator.Capabilities.{get_capabilities}
use android_hardware_mainlin.Vibrator.Threads.{call}

abbrev one_if : Bool → ℕ
one_if b = if b then 1 else 0

-- Whether it is the callback that is counted.
abbrev pub weight : ℕ → Option ℕ → ℕ
weight c none = 0
weight c (some d) = one_if (d == c)

abbrev pub count : ℕ → List ℕ → ℕ
count c [] = 0
count c (d ∷ rest) = one_if (d == c) + count c rest

abbrev pub pending : ℕ → Action → ℕ
pending c (complete_action callback) = weight c callback
pending c _ = 0

abbrev pub in_thread : ℕ → List Action → ℕ
in_thread c [] = 0
in_thread c (action ∷ rest) = pending c action + in_thread c rest

abbrev pub in_threads : ℕ → List (List Action) → ℕ
in_threads c [] = 0
in_threads c (thread ∷ rest) = in_thread c thread + in_threads c rest

-- How often it was completed or is held to be completed.
abbrev pub owed : ℕ → Vibrator → ℕ
owed c v =
    count c v.completed + weight c v.vibration_callback + weight c v.global_vibration_callback

pub count-call :
    (c : ℕ) (callback : Option ℕ) (completed : List ℕ)
    → count c (call callback completed) ≡ weight c callback + count c completed
count-call c none completed = omega arith
count-call c (some d) completed = refl

pub in_threads-append :
    (c : ℕ) (threads more : List (List Action))
    → in_threads c (threads ++ more) ≡ in_threads c threads + in_threads c more
in_threads-append c [] more = omega arith
in_threads-append c (thread ∷ rest) more = let tail = in_threads-append c rest more in omega arith

module _ (c : ℕ) where
  abbrev pub Owes : ℕ → Vibrator → Type 0
  Owes owes v = owed c v ≡ owes

  pub stop_effect-owed : (v : Vibrator) → owed c (stop_effect v) ≡ owed c v
  unfolding stop_effect erase_effect
  stop_effect-owed v =
      if_holds (Owes (owed c v)) (not v.has_device || below_zero v.last_effect_id) (λ idle. refl)
        (λ busy. if_holds (Owes (owed c v)) v.has_device (λ there. refl) (λ missing. refl))

  abbrev pub OwesAfter : ℕ → Vibrator × Bool → Type 0
  OwesAfter owes result = owed c result.0 ≡ owes

  pub uploaded-owed :
      (v : Vibrator) (length magnitude : ℕ) (id : Option ℕ)
      → owed c (uploaded v length magnitude id).0 ≡ owed c v
  uploaded-owed v length magnitude none = refl
  uploaded-owed v length magnitude (some id) = refl

  pub upload_effect-owed :
      (ops : FloatOps) (device : Device) (v : Vibrator) (duration_ms : ℤ) (amplitude : ℕ)
      → owed c (upload_effect ops device v duration_ms amplitude).0 ≡ owed c v
  unfolding upload_effect
  upload_effect-owed ops device v duration_ms amplitude =
      if_holds (OwesAfter (owed c v)) (not v.has_device) (λ missing. refl)
        (λ there. uploaded-owed (stop_effect v) _ _ _ ∙ stop_effect-owed v)

  pub play_effect-owed : (v : Vibrator) → owed c (play_effect v) ≡ owed c v
  unfolding play_effect
  play_effect-owed v = if_holds (Owes (owed c v)) v.has_device (λ there. refl) (λ missing. refl)

  abbrev pub OwesKnown : ℕ → Vibrator × Option ℕ → Type 0
  OwesKnown owes known = owed c known.0 ≡ owes

  pub get_capabilities-owed :
      (ops : FloatOps) (bits : CapBits) (version : Option ℕ) (v : Vibrator)
      → owed c (get_capabilities ops bits version v).0 ≡ owed c v
  unfolding get_capabilities
  get_capabilities-owed ops bits none v =
      if_holds (OwesKnown (owed c v)) (not (v.capabilities == 0)) (λ known. refl) (λ unknown. refl)
  get_capabilities-owed ops bits (some number) v =
      if_holds (OwesKnown (owed c v)) (not (v.capabilities == 0)) (λ known. refl) (λ unknown. refl)
