-- ===== src/Sensors/SensorTypes/Defaults.antt =====
-- SensorTypes.cpp: ParseSensorType and ApplySensorTypeDefaults.
use android_hardware_mainlin.Prelude.{
  ℕ, bit_or, ◌≡◌, refl, Bool, true, false, ◌||◌, Option, none, some, [], arith, if◌then◌else◌,
  find_if, pos, Bytes, codes, nat_key, bytes_key,
}
use android_hardware_mainlin.Sensors.SensorType.{
  SensorType, accelerometer, gyroscope, magnetic_field, proximity, light, pressure,
  ambient_temperature,
}
use android_hardware_mainlin.Sensors.SensorTypes.Traits.{
  ReportingMode, SensorInfo, SensorTypeTraits, k_traits, one_second_us,
}
use android_hardware_mainlin.Sensors.SensorTypes.Modes.{
  FlagBits, IsLayout, mode_bits, get_sensor_type_traits, reporting_mode_of,
  get_reporting_mode_flags, get_reporting_mode, get_reporting_mode_of_bits, is_wake_up_sensor,
}

-- `equals_ignore_case` is android::base::EqualsIgnoreCase, and `to_string` the AIDL name of a type.
module _ (equals_ignore_case : Bytes → Bytes → Bool) (to_string : SensorType → Bytes) where
  names : Bytes → SensorTypeTraits → Bool
  names name traits =
      equals_ignore_case name traits.config_name || equals_ignore_case name (to_string traits.type)

  -- The convenient aliases, tried after the table.
  alias_type : Bytes → Option SensorType
  alias_type name =
      if equals_ignore_case name (codes "accelerometer")
      then some accelerometer
      else (if equals_ignore_case name (codes "gyroscope")
          then some gyroscope
          else (if equals_ignore_case name (codes "magnetometer")
                || equals_ignore_case name (codes "compass")
              then some magnetic_field
              else (if equals_ignore_case name (codes "prox")
                  then some proximity
                  else (if equals_ignore_case name (codes "als")
                      then some light
                      else (if equals_ignore_case name (codes "baro")
                            || equals_ignore_case name (codes "barometer")
                          then some pressure
                          else (if equals_ignore_case name (codes "temp")
                              then some ambient_temperature
                              else none))))))

  type_or : Option SensorTypeTraits → Option SensorType → Option SensorType
  type_or none alias = alias
  type_or (some traits) alias = some traits.type

  pub parse_sensor_type : Bytes → Option SensorType
  unfolding names alias_type type_or k_traits
  parse_sensor_type name = type_or (find_if (names name) k_traits) (alias_type name)

-- The ranges and delays of the type's row, or those for a type without one.
ranges : Option SensorTypeTraits → FlagBits → SensorInfo → SensorInfo
ranges (some traits) b info = record info {
  max_range = traits.default_max_range;
  resolution = traits.default_resolution;
  power = traits.default_power_ma;
  min_delay_us = traits.default_min_delay_us;
  max_delay_us = traits.default_max_delay_us;
  flags = if traits.default_wake_up then bit_or info.flags b.wake_up else info.flags;
}
ranges none b info = record info {
  max_range = 0x3f800000;
  resolution = 0x3f800000;
  power = 0x3dcccccd;
  min_delay_us = pos 10000;
  max_delay_us = pos one_second_us;
}

unfoldable pub apply_sensor_type_defaults : FlagBits → SensorInfo → SensorInfo
unfolding ranges
apply_sensor_type_defaults b info =
    let moded = record info { flags = get_reporting_mode_flags b info.type } in
    let ranged = ranges (get_sensor_type_traits info.type) b moded in
    record ranged {
      fifo_reserved_event_count = 0;
      fifo_max_event_count = 0;
      required_permission = [];
      type_as_string = [];
    }

abbrev pub wakes_by_default : Option SensorTypeTraits → Bool
wakes_by_default none = false
wakes_by_default (some traits) = traits.default_wake_up

-- What ApplySensorTypeDefaults leaves untouched.
abbrev pub SameIdentity : SensorInfo → SensorInfo → Type 0
SameIdentity i j =
    (i.type ≡ j.type)
    × (i.sensor_handle ≡ j.sensor_handle)
    × (i.name ≡ j.name)
    × (i.vendor ≡ j.vendor)
    × (i.version ≡ j.version)

ranges-SameIdentity :
    (o : Option SensorTypeTraits) (b : FlagBits) (info : SensorInfo)
    → SameIdentity (ranges o b info) info
unfolding ranges
ranges-SameIdentity none b info = (refl, refl, refl, refl, refl)
ranges-SameIdentity (some traits) b info = (refl, refl, refl, refl, refl)

module _ (b : FlagBits) (l : IsLayout b) where
  -- The mode's bits, with the wake-up bit or without it.
  marked :
      (m : ReportingMode) (wake : Bool) (flags : ℕ)
      → flags ≡ mode_bits b m
      → let f = if wake then bit_or flags b.wake_up else flags in
        (get_reporting_mode b f ≡ m) × (is_wake_up_sensor b f ≡ wake)
  unfolding is_wake_up_sensor
  marked m true flags h = (
    get_reporting_mode_of_bits b l m _ (rw h (l.masked_wake_up m)),
    rw h (ground (arith, l.wake_up_set m)),
  )
  marked m false flags h = (
    get_reporting_mode_of_bits b l m _ (rw h (l.masked m)),
    rw h (ground (arith, l.wake_up_clear m)),
  )

  ranges_flags :
      (o : Option SensorTypeTraits) (info : SensorInfo)
      → info.flags ≡ mode_bits b (reporting_mode_of o)
      → (get_reporting_mode b (ranges o b info).flags ≡ reporting_mode_of o)
        × (is_wake_up_sensor b (ranges o b info).flags ≡ wakes_by_default o)
  unfolding ranges reporting_mode_of
  ranges_flags none info h = marked _ false info.flags h
  ranges_flags (some traits) info h =
      marked traits.reporting_mode traits.default_wake_up info.flags h

  -- For flag bits that are laid out as the interface documents: after the defaults, the flags
  -- decode to the mode and the wake-up default of the type's row, and the type, the handle, the
  -- name, the vendor and the version are as they were.
  pub apply_sensor_type_defaults_flags :
      (info : SensorInfo)
      → let done = apply_sensor_type_defaults b info in
        let row = get_sensor_type_traits info.type in
        (get_reporting_mode b done.flags ≡ reporting_mode_of row)
        × (is_wake_up_sensor b done.flags ≡ wakes_by_default row)
        × SameIdentity done info
  unfolding apply_sensor_type_defaults get_reporting_mode_flags
  apply_sensor_type_defaults_flags info =
      let row = get_sensor_type_traits info.type in
      let (mode, wake) = ranges_flags row _ refl in (mode, wake, ranges-SameIdentity row b _)
