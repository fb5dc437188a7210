-- ===== src/Sensors/SensorTypes/Modes.antt =====
-- SensorTypes.cpp: lookup in the table, and the reporting mode and wake-up bits of SensorInfo::flags.
use android_hardware_mainlin.Prelude.{
  ℕ, ◌≡◌, ◌≢◌, Bool, true, false, Option, none, some, ◌==◌, if◌then◌else◌, not, bit_and, bit_or,
  find_if, arith,
}
use android_hardware_mainlin.Sensors.SensorType.{SensorType, same_type}
use android_hardware_mainlin.Sensors.SensorTypes.Traits.{
  ReportingMode, continuous, on_change, one_shot, special, SensorTypeTraits, k_traits,
}

-- The constants SensorInfo::SENSOR_FLAG_BITS_* of the AIDL interface, and what its documentation
-- says of them: four modes under one mask, and bits for wake-up and data injection outside it.
pub record FlagBits : Type 0 where
  pub continuous_mode : ℕ
  pub on_change_mode : ℕ
  pub one_shot_mode : ℕ
  pub special_reporting_mode : ℕ
  pub mask_reporting_mode : ℕ
  pub wake_up : ℕ
  pub data_injection : ℕ

-- The bits of one mode.
abbrev pub mode_bits : FlagBits → ReportingMode → ℕ
mode_bits b continuous = b.continuous_mode
mode_bits b on_change = b.on_change_mode
mode_bits b one_shot = b.one_shot_mode
mode_bits b special = b.special_reporting_mode

pub record IsLayout (b : FlagBits) : Type 0 where
  pub masked : (m : ReportingMode) → bit_and (mode_bits b m) b.mask_reporting_mode ≡ mode_bits b m
  pub masked_wake_up :
      (m : ReportingMode)
      → bit_and (bit_or (mode_bits b m) b.wake_up) b.mask_reporting_mode ≡ mode_bits b m
  pub wake_up_clear : (m : ReportingMode) → bit_and (mode_bits b m) b.wake_up ≡ 0
  pub wake_up_set : (m : ReportingMode) → bit_and (bit_or (mode_bits b m) b.wake_up) b.wake_up ≢ 0
  pub on_change-ne-continuous : b.on_change_mode ≢ b.continuous_mode
  pub one_shot-ne-continuous : b.one_shot_mode ≢ b.continuous_mode
  pub special-ne-continuous : b.special_reporting_mode ≢ b.continuous_mode
  pub one_shot-ne-on_change : b.one_shot_mode ≢ b.on_change_mode
  pub special-ne-on_change : b.special_reporting_mode ≢ b.on_change_mode
  pub special-ne-one_shot : b.special_reporting_mode ≢ b.one_shot_mode

-- The loop of GetSensorTypeTraits over the table.
unfoldable pub get_sensor_type_traits : SensorType → Option SensorTypeTraits
unfolding k_traits
get_sensor_type_traits t = find_if (λ traits. same_type traits.type t) k_traits

unfoldable pub reporting_mode_of : Option SensorTypeTraits → ReportingMode
reporting_mode_of none = continuous
reporting_mode_of (some traits) = traits.reporting_mode

unfoldable pub get_reporting_mode_flags : FlagBits → SensorType → ℕ
unfolding reporting_mode_of
get_reporting_mode_flags b t = mode_bits b (reporting_mode_of (get_sensor_type_traits t))

unfoldable pub get_reporting_mode : FlagBits → ℕ → ReportingMode
get_reporting_mode b flags =
    let mode = bit_and flags b.mask_reporting_mode in
    if mode == b.on_change_mode
    then on_change
    else (if mode == b.one_shot_mode
        then one_shot
        else (if mode == b.special_reporting_mode then special else continuous))

abbrev is_mode : ReportingMode → ReportingMode → Bool
is_mode continuous continuous = true
is_mode on_change on_change = true
is_mode one_shot one_shot = true
is_mode special special = true
is_mode _ _ = false

unfoldable pub is_on_change_sensor : FlagBits → ℕ → Bool
is_on_change_sensor b flags = is_mode (get_reporting_mode b flags) on_change

unfoldable pub is_one_shot_sensor : FlagBits → ℕ → Bool
is_one_shot_sensor b flags = is_mode (get_reporting_mode b flags) one_shot

unfoldable pub is_wake_up_sensor : FlagBits → ℕ → Bool
is_wake_up_sensor b flags = not (bit_and flags b.wake_up == 0)

-- Decoding what the mask leaves of a mode's bits gives the mode.
pub get_reporting_mode_of_bits :
    (b : FlagBits) (l : IsLayout b) (m : ReportingMode) (flags : ℕ)
    → bit_and flags b.mask_reporting_mode ≡ mode_bits b m
    → get_reporting_mode b flags ≡ m
unfolding get_reporting_mode
get_reporting_mode_of_bits b l continuous flags h =
    ground (arith, l.on_change-ne-continuous, l.one_shot-ne-continuous, l.special-ne-continuous)
get_reporting_mode_of_bits b l on_change flags h = ground arith
get_reporting_mode_of_bits b l one_shot flags h = ground (arith, l.one_shot-ne-on_change)
get_reporting_mode_of_bits b l special flags h =
    ground (arith, l.special-ne-on_change, l.special-ne-one_shot)

-- For flag bits that are laid out as the interface documents: the mode bits of every sensor type
-- decode to the reporting mode of its traits.
pub get_reporting_mode-flags :
    (b : FlagBits)
    → IsLayout b
    → (t : SensorType)
    → get_reporting_mode b (get_reporting_mode_flags b t)
      ≡ reporting_mode_of (get_sensor_type_traits t)
unfolding get_reporting_mode_flags
get_reporting_mode-flags b l t = get_reporting_mode_of_bits b l _ _ (l.masked _)
