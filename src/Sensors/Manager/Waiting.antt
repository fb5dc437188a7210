-- ===== src/Sensors/Manager/Waiting.antt =====
-- The end of the discovery loop of Initialize in SensorManager.cpp.
use android_hardware_mainlin.Prelude.{
  ℕ, zero, suc, ◌+◌, ◌<◌, ◌≡◌, Bool, true, false, ◌||◌, ℤ, nat_key, bytes_key,
}
use android_hardware_mainlin.Sensors.Manager.State.{Backends, Manager}
use android_hardware_mainlin.Sensors.Manager.Discovery.{attempt, is_complete, shutdown_backends}

module _ {S : Type 0} (env : Backends) where
  -- The state before attempt `i`, counted from 0: each attempt before it was shut down again.
  abbrev pub before_attempt : ℕ → Manager S → Manager S
  before_attempt zero m = m
  before_attempt (suc i) m = before_attempt i (shutdown_backends env (attempt env m))

  -- Whether the loop ends with attempt `i` of those from attempt number k.
  abbrev pub ends_at : ℤ → (ℕ → Bool) → ℕ → Manager S → ℕ → Bool
  ends_at expected timed_out k m i =
      is_complete env expected (attempt env (before_attempt i m)) || timed_out (k + i)

  -- The loop from attempt number k ended with the first attempt that found all sensors or whose
  -- deadline had passed, the attempt `last`, and `found` is what that attempt left.
  pub record Discovered (expected : ℤ) (timed_out : ℕ → Bool) (k : ℕ) (m found : Manager S)
      : Type 0 where
    pub last : ℕ
    pub state : found ≡ attempt env (before_attempt last m)
    pub reason : ends_at expected timed_out k m last ≡ true
    pub went_on : (i : ℕ) → i < last → ends_at expected timed_out k m i ≡ false
