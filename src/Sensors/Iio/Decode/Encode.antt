-- ===== src/Sensors/Iio/Decode/Encode.antt =====
-- interfaces/sensors/mainline/backends/iio/IioChannel.cpp: DecodeRaw on what a driver pushes.
use android_hardware_mainlin.Prelude.{
  ℕ, zero, suc, ◌+◌, ◌-◌, ◌*◌, ◌/◌, ◌%◌, ◌^◌, ◌≤◌, ◌<◌, ◌≡◌, ap, ◌∙◌, true, arith, if◌then◌else◌,
  All, ℤ, pos, negsuc, Bytes, nat_key, bytes_key, pow-pos, two_pow-suc, mod_unique,
}
use android_hardware_mainlin.Sensors.Iio.ScanType.{IioScanType, element_bytes}
use android_hardware_mainlin.Sensors.Iio.ScanType.RoundTrip.{IsValid}
use android_hardware_mainlin.Sensors.Iio.Decode.{byte_at, decode_raw}
use android_hardware_mainlin.Sensors.Iio.Decode.Field.{word_of, signed_value, decode_raw-field}
use native.Mathlib.Nat.{mul-add-div_right, div-eq_of_lt, pow-le-pow_right}

-- The numbers that a description can carry and that are int64_t.
abbrev pub IsRepresentable : IioScanType → ℤ → Type 0
IsRepresentable type (pos n) =
    if type.is_signed then n < 2 ^ (type.realbits - 1) else ((n < 2 ^ type.realbits) × (n < 2 ^ 63))
IsRepresentable type (negsuc n) = (type.is_signed ≡ true) × (n < 2 ^ (type.realbits - 1))

-- Two's complement in `realbits` bits.
abbrev pub encode : ℕ → ℤ → ℕ
encode realbits (pos n) = n
encode realbits (negsuc n) = 2 ^ realbits - 1 - n

half_power : (r : ℕ) → 1 ≤ r → 2 ^ r ≡ 2 * 2 ^ (r - 1)
half_power zero h = absurd (omega arith)
half_power (suc k) h = ap (λ j. 2 ^ j) (omega arith) ∙ two_pow-suc (suc k - 1)

half_bound : (r : ℕ) → 1 ≤ r → r ≤ 64 → 2 ^ (r - 1) ≤ 2 ^ 63
half_bound r h k = pow-le-pow_right (omega arith) {j = 63} (omega arith)

encode-below :
    (type : IioScanType) (x : ℤ)
    → 1 ≤ type.realbits
    → IsRepresentable type x
    → encode type.realbits x < 2 ^ type.realbits
encode-below type (pos n) one h = ground (arith, half_power type.realbits one)
encode-below type (negsuc n) one h = omega (arith, pow-pos type.realbits)

signed_value-encode :
    (type : IioScanType) (x : ℤ)
    → 1 ≤ type.realbits
    → type.realbits ≤ 64
    → IsRepresentable type x
    → signed_value type.is_signed type.realbits (encode type.realbits x) ≡ x
signed_value-encode type (pos n) one most h =
    ground (arith, half_power type.realbits one, half_bound type.realbits one most)
signed_value-encode type (negsuc n) one most h = ground (arith, half_power type.realbits one)

field_of_word :
    (p q high field low : ℕ)
    → 0 < p
    → field < q
    → low < p
    → ((high * q + field) * p + low) / p % q ≡ field
field_of_word p q high field low h lt k =
    rw (mul-add-div_right h (high * q + field) low, div-eq_of_lt k)
      (mod_unique _ high field q (omega arith) lt)

-- What a driver pushes is what DecodeRaw gives back: for a valid description, a number that it can
-- carry, and a scan buffer whose bytes at the element stand, in the byte order of the description,
-- for a word with the number in its value bits and anything in the padding bits above and below.
pub decode_raw-encode :
    (type : IioScanType) (location : ℕ) (scan : Bytes) (element : ℕ) (x : ℤ) (high low : ℕ)
    → IsValid type
    → All (λ b. b < 256) scan
    → IsRepresentable type x
    → low < 2 ^ type.shift
    → word_of type (λ i. byte_at scan (location + element * element_bytes type + i))
      ≡ (high * 2 ^ type.realbits + encode type.realbits x) * 2 ^ type.shift + low
    → decode_raw type location scan element ≡ x
decode_raw-encode type location scan element x high low v bytes r small e =
    let inside = v.inside in
    let word = v.word in
    rw
      (
        decode_raw-field type location scan element v bytes,
        e,
        field_of_word (2 ^ type.shift) (2 ^ type.realbits) high (encode type.realbits x) low
            (pow-pos type.shift) (encode-below type x v.some_bits r) small,
      )
      (signed_value-encode type x v.some_bits (omega arith) r)
