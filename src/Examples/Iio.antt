-- ===== src/Examples/Iio.antt =====
-- Witnesses for the IIO backend: scan descriptions, scan buffers, channels and attribute names.
use android_hardware_mainlin.Prelude.{
  ℕ, ◌/◌, ◌%◌, ◌^◌, ◌<◌, ◌≡◌, refl, ap, ap₂, inl, inr, Bool, true, false, not, ◌&&◌, none, some,
  List, [], ◌∷◌, ◌++◌, arith, ltb, if◌then◌else◌, ==_iff, Bool-cases, is_empty, All, pos, negsuc,
  Bytes, codes, bytes_eq, bytes_eq_iff, nat_key, bytes_key, AndroidBase,
}
use android_hardware_mainlin.Examples.Library.{has_prefix, has_suffix, split_at, sample_base}
use android_hardware_mainlin.Sensors.Iio.ScanType.{
  parse_flag, after_literal, parse_number_until, parse_number, parse_optional, checked_type,
  is_rejected, int_add, IioScanType, is_digit, element_bytes, parse_scan_type, to_string,
  leading_digits, after_digits,
}
use android_hardware_mainlin.Sensors.Iio.ScanType.RoundTrip.{
  ParsesDecimals, IsValid, IsAccepted, decimal_value, parse_scan_type-to_string,
  parse_scan_type-IsAccepted,
}
use android_hardware_mainlin.Sensors.Iio.Decode.{decode_raw, byte_at}
use android_hardware_mainlin.Sensors.Iio.Decode.Field.{signed_value, decode_raw-field}
use android_hardware_mainlin.Sensors.Iio.Decode.Encode.{decode_raw-encode}
use android_hardware_mainlin.Sensors.Iio.ScanLayout.{IioChannel, compute_scan_layout}
use android_hardware_mainlin.Sensors.Iio.ScanLayout.Packed.{IsLayout, compute_scan_layout-IsLayout}
use android_hardware_mainlin.Sensors.Iio.AttributeName.{
  IioChannelId, IioParsedAttribute, parse_iio_attribute_name,
}
use android_hardware_mainlin.Sensors.Iio.AttributeName.Parts.{TestsAffixes}
use android_hardware_mainlin.Sensors.Iio.AttributeName.Spelling.{
  SpellsAttribute, parse_iio_attribute_name-spells,
}
use android_hardware_mainlin.Sensors.Iio.SensorSpecs.{default_quirks, match_iio_sensor_specs}
use android_hardware_mainlin.Sensors.Iio.SensorSpecs.Backed.{
  IsBacked, match_iio_sensor_specs-IsBacked,
}

-- Reads texts of digits.
abbrev iio_base : AndroidBase
iio_base = record {
  split = split_at;
  trim = sample_base.trim;
  starts_with = has_prefix;
  ends_with = has_suffix;
  parse_int = λ text.
      if not (is_empty text) && ltb (decimal_value 0 text) (2 ^ 31)
      then some (pos (decimal_value 0 text))
      else none;
  parse_bool = sample_base.parse_bool;
  parse_double = sample_base.parse_double;
}

iio_base-ParsesDecimals : ParsesDecimals iio_base
iio_base-ParsesDecimals = record { parse_digits = λ text digits nonempty small. ground arith }

has_prefix-splits : (s p : Bytes) → has_prefix s p ≡ true → (rest : Bytes) × (s ≡ p ++ rest)
has_prefix-splits s [] h = (s, refl)
has_prefix-splits [] (b ∷ p) h = absurd (ground arith)
has_prefix-splits (c ∷ s) (b ∷ p) h =
    let more = has_prefix-splits s p (ground arith) in
    (more.0, ap₂ ◌∷◌ ((==_iff c b).0 (ground arith)) more.1)

has_suffix-splits : (s q : Bytes) → has_suffix s q ≡ true → (front : Bytes) × (s ≡ front ++ q)
has_suffix-splits [] [] h = ([], refl)
has_suffix-splits [] (b ∷ q) h = absurd (ground arith)
has_suffix-splits (c ∷ s) q h = elim (Bool-cases (bytes_eq (c ∷ s) q)) [
  | inl whole ↦ ([], (bytes_eq_iff (c ∷ s) q).0 whole)
  | inr part ↦
      let more = has_suffix-splits s q (ground (arith, part)) in (c ∷ more.0, ap (◌∷◌ c) more.1)
]

iio_base-TestsAffixes : TestsAffixes iio_base
iio_base-TestsAffixes = record {
  starts_with_prefix = has_prefix-splits;
  ends_with_suffix = has_suffix-splits;
}

-- le:s12/16X4>>4
abbrev sample_type : IioScanType
sample_type = record {
  big_endian = false;
  is_signed = true;
  realbits = 12;
  storagebits = 16;
  shift = 4;
  repeat = 4;
}

sample_type-IsValid : IsValid sample_type
sample_type-IsValid = record {
  some_bits = omega arith;
  inside = omega arith;
  word = omega arith;
  repeated = omega arith;
  repeat_int = omega arith;
}

to_string-sample : to_string sample_type ≡ codes "le:s12/16X4>>4"
unfolding to_string
to_string-sample = refl

parse_scan_type-to_string_example :
    parse_scan_type iio_base (to_string sample_type) ≡ some sample_type
parse_scan_type-to_string_example =
    parse_scan_type-to_string iio_base sample_type iio_base-ParsesDecimals sample_type-IsValid

parse_sample : parse_scan_type iio_base (codes "le:s12/16X4>>4") ≡ some sample_type
unfolding parse_scan_type parse_flag after_literal parse_number_until parse_number leading_digits
    is_digit after_digits parse_optional checked_type is_rejected int_add
parse_sample = refl

parse_scan_type-IsAccepted_example : IsAccepted sample_type
parse_scan_type-IsAccepted_example =
    parse_scan_type-IsAccepted iio_base (codes "le:s12/16X4>>4") sample_type parse_sample

-- Two bytes of a timestamp channel, then -3 in 12 bits above four padding bits.
abbrev sample_scan : Bytes
sample_scan = 1 ∷ 2 ∷ 0xd7 ∷ 0xff ∷ []

sample_scan-bytes : All (λ b. b < 256) sample_scan
sample_scan-bytes = (omega arith, (omega arith, (omega arith, (omega arith, tt))))

decode_raw-field_example :
    decode_raw sample_type 0 sample_scan 1 ≡ signed_value true 12 (0xffd7 / 2 ^ 4 % 2 ^ 12)
unfolding byte_at element_bytes
decode_raw-field_example =
    decode_raw-field sample_type 0 sample_scan 1 sample_type-IsValid sample_scan-bytes

decode_raw-encode_example : decode_raw sample_type 0 sample_scan 1 ≡ negsuc 2
unfolding byte_at element_bytes
decode_raw-encode_example =
    decode_raw-encode sample_type 0 sample_scan 1 (negsuc 2) 0 7 sample_type-IsValid
      sample_scan-bytes (refl, omega arith) (omega arith) refl

abbrev sample_channel : Bool → ℕ → ℕ → IioChannel
sample_channel timestamp index bits = record {
  is_timestamp = timestamp;
  scan_index = pos index;
  scan_type = record {
    big_endian = false;
    is_signed = true;
    realbits = bits;
    storagebits = bits;
    shift = 0;
    repeat = 1;
  };
  location = 0;
}

abbrev sample_channels : List IioChannel
sample_channels =
    sample_channel true 0 64 ∷ sample_channel false 2 16 ∷ sample_channel false 1 16 ∷ []

compute_scan_layout-IsLayout_example :
    IsLayout sample_channels (compute_scan_layout sample_channels)
compute_scan_layout-IsLayout_example = compute_scan_layout-IsLayout sample_channels

layout_size : (compute_scan_layout sample_channels).1 ≡ 16
unfolding compute_scan_layout
layout_size = refl

abbrev sample_attribute : IioParsedAttribute
sample_attribute = record {
  id = record { type = codes "anglvel"; index = pos 1; modifier = codes "x" };
  postfix = codes "sampling_frequency";
}

parse_attribute :
    parse_iio_attribute_name iio_base (codes "in_anglvel1_x_sampling_frequency")
    ≡ some sample_attribute
unfolding parse_iio_attribute_name is_digit
parse_attribute = refl

parse_iio_attribute_name-spells_example :
    SpellsAttribute iio_base (codes "in_anglvel1_x_sampling_frequency") sample_attribute
parse_iio_attribute_name-spells_example =
    parse_iio_attribute_name-spells iio_base iio_base-TestsAffixes
      (codes "in_anglvel1_x_sampling_frequency") sample_attribute parse_attribute

abbrev light_channels : List IioChannelId
light_channels =
    record { type = codes "illuminance"; index = pos 1; modifier = [] }
    ∷ record { type = codes "illuminance"; index = pos 0; modifier = [] }
    ∷ []

match_iio_sensor_specs-IsBacked_example :
    All (IsBacked light_channels) (match_iio_sensor_specs light_channels default_quirks false)
match_iio_sensor_specs-IsBacked_example =
    match_iio_sensor_specs-IsBacked light_channels default_quirks false
