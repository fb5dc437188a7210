-- ===== src/Vibrator/State.antt =====
-- interfaces/vibrator/mainline/Vibrator.cpp and include/vibrator-impl/Vibrator.h: the data of the
-- vibrator. Floats are binary32 patterns with their arithmetic as a parameter (FloatOps), callbacks are
-- numbers that tell them apart, the constants of the AIDL interface are a parameter (CapBits), and the
-- input device answers uploads through a parameter (Device).
use android_hardware_mainlin.Prelude.{ℕ, Bool, Option, List, [], ℤ, nat_key, bytes_key}

pub data Effect : Type 0 where
  click double_click tick thud pop heavy_click texture_tick : Effect
  ringtone other_effect : ℕ → Effect

pub data EffectStrength : Type 0 where
  light_strength medium_strength strong_strength : EffectStrength
  other_strength : ℕ → EffectStrength

pub data CompositePrimitive : Type 0 where
  noop click_primitive thud_primitive spin quick_rise slow_rise quick_fall light_tick low_tick :
      CompositePrimitive
  other_primitive : ℕ → CompositePrimitive

pub record CompositeEffect : Type 0 where
  pub delay_ms : ℤ
  pub primitive : CompositePrimitive
  pub scale : ℕ

-- What is written to the input device.
pub data Command : Type 0 where
  upload_command : (id length magnitude : ℕ) → Command
  play_command stop_command erase_command : ℕ → Command

pub record FloatOps : Type 0 where
  pub is_positive : ℕ → Bool
  pub at_most_zero : ℕ → Bool
  pub is_negative : ℕ → Bool
  pub above_one : ℕ → Bool
  pub times : ℕ → ℕ → ℕ
  pub to_uint16 : ℕ → ℕ

pub record Device : Type 0 where
  pub upload : List Command → ℕ → ℕ → Option ℕ

pub record CapBits : Type 0 where
  pub on_callback : ℕ
  pub perform_callback : ℕ
  pub amplitude_control : ℕ
  pub compose_effects : ℕ
  pub always_on_control : ℕ
  pub get_resonant_frequency : ℕ
  pub get_q_factor : ℕ
  pub perform_vendor_effects : ℕ
  pub external_control : ℕ
  pub external_amplitude_control : ℕ

pub data Status : Type 0 where
  ok unsupported_operation illegal_argument illegal_state : Status
  service_specific_error : ℕ → Status

pub record Durations : Type 0 where
  pub click_ms : ℤ
  pub double_click_ms : ℤ
  pub tick_ms : ℤ
  pub thud_ms : ℤ
  pub pop_ms : ℤ
  pub heavy_click_ms : ℤ
  pub texture_tick_ms : ℤ
  pub ringtone_ms : ℤ

-- The fields of the class, with what was written to the device and the callbacks that were called.
pub record Vibrator : Type 0 where
  pub has_device : Bool
  pub last_effect_id : ℤ
  pub is_vibrating : Bool
  pub vibration_callback : Option ℕ
  pub global_vibration_callback : Option ℕ
  pub current_amplitude : ℕ
  pub external_control_enabled : Bool
  pub capabilities : ℕ
  pub resonant_frequency : ℕ
  pub q_factor : ℕ
  pub durations : Durations
  pub commands : List Command
  pub completed : List ℕ

-- What a thread of the vibrator does, step by step.
pub data Action : Type 0 where
  upload_action : ℤ → ℕ → Action
  compose_upload_action : ℤ → ℕ → Action
  play_action stop_action : Action
  sleep_action : ℤ → Action
  finish_action complete_action : Option ℕ → Action

-- What a call leaves: the state, the threads that it starts and its status.
pub record Reply : Type 0 where
  pub vibrator : Vibrator
  pub threads : List (List Action)
  pub status : Status

abbrev pub reply : Vibrator → Status → Reply
reply v status = record { vibrator = v; threads = []; status = status }
