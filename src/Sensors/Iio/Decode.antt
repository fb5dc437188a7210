-- ===== src/Sensors/Iio/Decode.antt =====
-- interfaces/sensors/mainline/backends/iio/IioChannel.cpp: IioChannel::DecodeRaw on 64-bit words.
-- `src` gives the byte at an offset from the start of the element.
use android_hardware_mainlin.Prelude.{
  ℕ, zero, suc, ◌+◌, ◌-◌, ◌*◌, ◌/◌, ◌%◌, ◌^◌, ◌≤◌, ◌<◌, bit_and, bit_or, String, ◌≡◌, refl, sym, ap,
  subst, ◌∙◌, ap₂, subst₂, ◌≢◌, ◌↔◌, ◌⊎◌, inl, inr, Bool, true, false, not, ◌&&◌, ◌||◌, Option,
  none, some, List, [], ◌∷◌, ◌++◌, map, append-nil, append_assoc, arith, ltb, leb, ◌==◌,
  if◌then◌else◌, ==_iff, ==_refl, Bool-cases, Option-cases, is_some, get_or_else, length,
  length-append, get_elem?, is_empty, any_of, find_if, All, All-append, All-mono, ℤ, pos, negsuc,
  pos_part, neg_part, sub_ℕ, ◌+ℤ◌, ◌-ℤ◌, ◌*ℤ◌, ◌≤ℤ◌, ◌<ℤ◌, ltb_ℤ, ◌==ℤ◌, ==ℤ_iff, min_ℤ, Bytes,
  codes, bytes_eq, bytes_eq_iff, Key, nat_key, bytes_key, lookup, insert, erase, lookup-insert,
  lookup-erase, contains, AndroidBase, SplitsAtEach, ◌>>=◌, ◌>>◌, guard, bit_and-mask, bit_and-flag,
  bit_or-high_low, bit_or-low_high, pow-pos, two_pow-suc, two_pow-add, mod_unique,
}
pub mod Field
pub mod Encode
use android_hardware_mainlin.Sensors.Iio.ScanType.{IioScanType, element_bytes}

-- `(value << 8) | byte` on uint64_t.
unfoldable pub shift_in : ℕ → ℕ → ℕ
shift_in value byte = bit_or (value * 2 ^ 8 % 2 ^ 64) byte

-- for (size_t i = 0; i < bytes; i++), with the rounds that are left.
unfoldable pub read_big : (ℕ → ℕ) → ℕ → ℕ → ℕ → ℕ
unfolding shift_in
read_big src zero i value = value
read_big src (suc left) i value = read_big src left (i + 1) (shift_in value (src i))

-- for (size_t i = bytes; i > 0; i--).
unfoldable pub read_little : (ℕ → ℕ) → ℕ → ℕ → ℕ
unfolding shift_in
read_little src zero value = value
read_little src (suc i) value = read_little src i (shift_in value (src i))

unfoldable pub read_word : IioScanType → (ℕ → ℕ) → ℕ
unfolding read_big read_little element_bytes
read_word type src =
    if type.big_endian
    then read_big src (element_bytes type) 0 0
    else read_little src (element_bytes type) 0

-- `~((1ULL << realbits) - 1)`.
abbrev pub inverted_mask : ℕ → ℕ
inverted_mask realbits = 2 ^ 64 - 1 - (2 ^ realbits - 1)

unfoldable pub extend_sign : IioScanType → ℕ → ℕ
extend_sign type value =
    if type.is_signed && not (bit_and value (2 ^ (type.realbits - 1)) == 0)
    then bit_or value (inverted_mask type.realbits)
    else value

unfoldable pub extract_bits : IioScanType → ℕ → ℕ
unfolding extend_sign
extract_bits type value =
    if ltb type.realbits 64 then extend_sign type (bit_and value (2 ^ type.realbits - 1)) else value

-- static_cast<int64_t>.
unfoldable pub to_int64 : ℕ → ℤ
to_int64 value = if ltb value (2 ^ 63) then pos value else negsuc (2 ^ 64 - value - 1)

-- The byte of the scan buffer at an offset; the code reads inside the buffer only.
unfoldable pub byte_at : Bytes → ℕ → ℕ
byte_at scan i = get_or_else (get_elem? scan i) 0

unfoldable pub decode_word : IioScanType → (ℕ → ℕ) → ℤ
unfolding read_word extract_bits to_int64
decode_word type src = to_int64 (extract_bits type (read_word type src / 2 ^ type.shift))

-- DecodeRaw of the channel at `location`.
unfoldable pub decode_raw : IioScanType → ℕ → Bytes → ℕ → ℤ
unfolding decode_word byte_at element_bytes
decode_raw type location scan element =
    decode_word type (λ i. byte_at scan (location + element * element_bytes type + i))
