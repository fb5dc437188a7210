-- ===== src/Sensors/Iio/SensorSpecs.antt =====
-- interfaces/sensors/mainline/backends/iio/IioTypes.cpp and IioTypes.h: the quirks of known devices and
-- the sensors that can be built from the channels of a device. A double is its binary64 pattern.
use android_hardware_mainlin.Prelude.{
  ℕ, zero, suc, ◌+◌, ◌-◌, ◌*◌, ◌/◌, ◌%◌, ◌^◌, ◌≤◌, ◌<◌, bit_and, bit_or, String, ◌≡◌, refl, sym, ap,
  subst, ◌∙◌, ap₂, subst₂, ◌≢◌, ◌↔◌, ◌⊎◌, inl, inr, Bool, true, false, not, ◌&&◌, ◌||◌, Option,
  none, some, List, [], ◌∷◌, ◌++◌, map, append-nil, append_assoc, arith, ltb, leb, ◌==◌,
  if◌then◌else◌, ==_iff, ==_refl, Bool-cases, Option-cases, is_some, get_or_else, length,
  length-append, get_elem?, is_empty, any_of, find_if, All, All-append, All-mono, ℤ, pos, negsuc,
  pos_part, neg_part, sub_ℕ, ◌+ℤ◌, ◌-ℤ◌, ◌*ℤ◌, ◌≤ℤ◌, ◌<ℤ◌, ltb_ℤ, ◌==ℤ◌, ==ℤ_iff, min_ℤ, Bytes,
  codes, bytes_eq, bytes_eq_iff, Key, nat_key, bytes_key, lookup, insert, erase, lookup-insert,
  lookup-erase, contains, AndroidBase, SplitsAtEach, ◌>>=◌, ◌>>◌, guard, bit_and-mask, bit_and-flag,
  bit_or-high_low, bit_or-low_high, pow-pos, two_pow-suc, two_pow-add, mod_unique, sort_by,
  IsSortedBy, IsOrder, sort_by-perm, sort_by-IsSortedBy, All-sort_by, OnSome, OnSome-mono, Holds,
  >>=-Holds, guard-Holds, Holds-some, OnSome-some,
}
pub mod Backed
use android_hardware_mainlin.Sensors.SensorType.{
  relative_humidity, SensorType, rotation_vector, accelerometer, game_rotation_vector,
  ambient_temperature, light, geomagnetic_rotation_vector, gyroscope, magnetic_field, gravity,
  proximity, pressure, hinge_angle, step_counter,
}
use android_hardware_mainlin.Sensors.Iio.AttributeName.{IioChannelId, is_timestamp_id}

pub data Payload : Type 0 where
  k_vec3 k_scalar k_proximity k_quaternion k_step_count : Payload

pub record IioSensorSpec : Type 0 where
  pub android_type : SensorType
  pub iio_type : Bytes
  pub modifiers : List Bytes
  pub index : ℤ
  pub unit_factor : ℕ
  pub payload : Payload

pub record IioDeviceQuirks : Type 0 where
  pub proximity_is_distance : Bool
  pub pressure_in_hpa : Bool
  pub proximity_near_level : Option ℕ
  pub ignore_offset : Bool
  pub ignore_timestamp_channel : Bool
  pub rotation_vector_type : SensorType

-- 1.0, 10.0, 100.0, 0.001 and 180.0 / 3.14159265358979.
abbrev pub d_one : ℕ
d_one = 0x3ff0000000000000

abbrev pub d_ten : ℕ
d_ten = 0x4024000000000000

abbrev pub d_hundred : ℕ
d_hundred = 0x4059000000000000

abbrev pub d_thousandth : ℕ
d_thousandth = 0x3f50624dd2f1a9fc

abbrev pub d_degrees : ℕ
d_degrees = 0x404ca5dc1a63c200

abbrev pub default_quirks : IioDeviceQuirks
default_quirks = record {
  proximity_is_distance = false;
  pressure_in_hpa = false;
  proximity_near_level = none;
  ignore_offset = false;
  ignore_timestamp_channel = false;
  rotation_vector_type = rotation_vector;
}

abbrev pub smgr_proximity_quirks : IioDeviceQuirks
smgr_proximity_quirks = record {
  proximity_is_distance = true;
  pressure_in_hpa = false;
  proximity_near_level = none;
  ignore_offset = false;
  ignore_timestamp_channel = true;
  rotation_vector_type = rotation_vector;
}

abbrev pub smgr_pressure_quirks : IioDeviceQuirks
smgr_pressure_quirks = record {
  proximity_is_distance = false;
  pressure_in_hpa = true;
  proximity_near_level = none;
  ignore_offset = true;
  ignore_timestamp_channel = true;
  rotation_vector_type = rotation_vector;
}

abbrev pub smgr_quirks : IioDeviceQuirks
smgr_quirks = record {
  proximity_is_distance = false;
  pressure_in_hpa = false;
  proximity_near_level = none;
  ignore_offset = false;
  ignore_timestamp_channel = true;
  rotation_vector_type = rotation_vector;
}

abbrev pub hid_prox_quirks : IioDeviceQuirks
hid_prox_quirks = record {
  proximity_is_distance = false;
  pressure_in_hpa = false;
  proximity_near_level = some d_one;
  ignore_offset = false;
  ignore_timestamp_channel = false;
  rotation_vector_type = rotation_vector;
}

abbrev pub rotation_quirks : SensorType → IioDeviceQuirks
rotation_quirks type = record {
  proximity_is_distance = false;
  pressure_in_hpa = false;
  proximity_near_level = none;
  ignore_offset = false;
  ignore_timestamp_channel = false;
  rotation_vector_type = type;
}

-- kQuirks.
abbrev pub quirk_entries : List (Bytes × IioDeviceQuirks)
quirk_entries =
    (codes "qcom-smgr-prox", smgr_proximity_quirks)
    ∷ (codes "qcom-smgr-pressure", smgr_pressure_quirks)
    ∷ (codes "qcom-smgr-", smgr_quirks)
    ∷ (codes "prox", hid_prox_quirks)
    ∷ (codes "relative_orientation", rotation_quirks game_rotation_vector)
    ∷ (codes "geomagnetic_orientation", rotation_quirks geomagnetic_rotation_vector)
    ∷ (codes "dev_rotation", rotation_quirks rotation_vector)
    ∷ []

unfoldable pub first_quirks : AndroidBase → Bytes → List (Bytes × IioDeviceQuirks) → IioDeviceQuirks
first_quirks base name [] = default_quirks
first_quirks base name ((name_prefix, quirks) ∷ rest) =
    let later = first_quirks base name rest in
    if base.starts_with name name_prefix then quirks else later

-- GetIioDeviceQuirks.
unfoldable pub get_iio_device_quirks : AndroidBase → Bytes → IioDeviceQuirks
unfolding first_quirks
get_iio_device_quirks base device_name = first_quirks base device_name quirk_entries

abbrev pub has_words : Bytes → Bytes → IioChannelId → Bool
has_words type modifier id = bytes_eq id.type type && bytes_eq id.modifier modifier

unfoldable pub has_channel : List IioChannelId → Bytes → Bytes → ℤ → Bool
has_channel channels type modifier index =
    any_of (λ id. has_words type modifier id && (id.index ==ℤ index)) channels

-- `!best.has_value() || id.index < *best`.
abbrev pub is_lower : ℤ → Option ℤ → Bool
is_lower index none = true
is_lower index (some best) = ltb_ℤ index best

unfoldable pub find_index_from : Bytes → Bytes → Option ℤ → List IioChannelId → Option ℤ
find_index_from type modifier best [] = best
find_index_from type modifier best (id ∷ rest) =
    find_index_from type modifier
      (if has_words type modifier id && is_lower id.index best then some id.index else best) rest

unfoldable pub find_channel_index : List IioChannelId → Bytes → Bytes → Option ℤ
unfolding find_index_from
find_channel_index channels type modifier = find_index_from type modifier none channels

-- The lambda add_vec3: what it appends.
unfoldable pub add_vec3 : List IioChannelId → Bytes → SensorType → ℕ → List IioSensorSpec
unfolding has_channel
add_vec3 channels iio_type type unit_factor =
    if has_channel channels iio_type (codes "x") (negsuc 0)
      && has_channel channels iio_type (codes "y") (negsuc 0)
      && has_channel channels iio_type (codes "z") (negsuc 0)
    then record {
      android_type = type;
      iio_type = iio_type;
      modifiers = codes "x" ∷ codes "y" ∷ codes "z" ∷ [];
      index = negsuc 0;
      unit_factor = unit_factor;
      payload = k_vec3;
    }
      ∷ []
    else []

-- The lambda add_scalar: what it appends; it returns true if that is something.
unfoldable pub add_scalar :
    List IioChannelId → Bytes → Bytes → SensorType → ℕ → Payload → List IioSensorSpec
unfolding find_channel_index
add_scalar channels iio_type modifier type unit_factor payload =
    elim (find_channel_index channels iio_type modifier) [
      | none ↦ []
      | some index ↦
          record {
            android_type = type;
            iio_type = iio_type;
            modifiers = modifier ∷ [];
            index = index;
            unit_factor = unit_factor;
            payload = payload;
          }
          ∷ []
    ]

-- `if (!a) b`.
abbrev pub or_else : List IioSensorSpec → List IioSensorSpec → List IioSensorSpec
or_else [] other = other
or_else (spec ∷ specs) other = spec ∷ specs

unfoldable pub light_specs : List IioChannelId → List IioSensorSpec
unfolding add_scalar
light_specs channels = or_else (add_scalar channels (codes "illuminance") [] light d_one k_scalar) (
    or_else (add_scalar channels (codes "intensity") (codes "both") light d_one k_scalar)
      (add_scalar channels (codes "intensity") (codes "clear") light d_one k_scalar))

unfoldable pub has_other_types : List IioChannelId → Bool
unfolding is_timestamp_id
has_other_types channels =
    any_of (λ id. not (bytes_eq id.type (codes "temp")) && not (is_timestamp_id id)) channels

unfoldable pub temperature_specs : List IioChannelId → Bool → List IioSensorSpec
unfolding add_scalar has_other_types
temperature_specs channels expose_temperature =
    if expose_temperature || not (has_other_types channels)
    then or_else
        (add_scalar channels (codes "temp") (codes "ambient") ambient_temperature d_thousandth
          k_scalar)
        (add_scalar channels (codes "temp") [] ambient_temperature d_thousandth k_scalar)
    else []

unfoldable pub match_iio_sensor_specs :
    List IioChannelId → IioDeviceQuirks → Bool → List IioSensorSpec
unfolding add_vec3 add_scalar light_specs temperature_specs
match_iio_sensor_specs channels quirks expose_temperature =
    add_vec3 channels (codes "accel") accelerometer d_one
    ++ (add_vec3 channels (codes "anglvel") gyroscope d_one
        ++ (add_vec3 channels (codes "magn") magnetic_field d_hundred
            ++ (add_vec3 channels (codes "gravity") gravity d_one
                ++ (light_specs channels
                    ++ (add_scalar channels (codes "proximity") [] proximity d_one k_proximity
                        ++ (add_scalar channels (codes "pressure") [] pressure
                              (if quirks.pressure_in_hpa then d_one else d_ten) k_scalar
                            ++ (add_scalar channels (codes "humidityrelative") [] relative_humidity
                                  d_thousandth k_scalar
                                ++ (temperature_specs channels expose_temperature
                                    ++ (add_scalar channels (codes "rot") (codes "quaternion")
                                          quirks.rotation_vector_type d_one k_quaternion
                                        ++ (add_scalar channels (codes "angl") [] hinge_angle
                                              d_degrees k_scalar
                                            ++ add_scalar channels (codes "steps") [] step_counter
                                                d_one k_step_count))))))))))
