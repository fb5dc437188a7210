-- ===== src/Sensors/Iio/Decode/Field.antt =====
-- interfaces/sensors/mainline/backends/iio/IioChannel.cpp: the number that DecodeRaw reads.
use android_hardware_mainlin.Prelude.{
  ℕ, zero, suc, ◌+◌, ◌-◌, ◌*◌, ◌/◌, ◌%◌, ◌^◌, ◌≤◌, ◌<◌, bit_and, bit_or, ◌≡◌, sym, ap, ◌∙◌, inl,
  inr, Bool, not, ◌&&◌, [], ◌∷◌, arith, ltb, leb, ◌==◌, if◌then◌else◌, Bool-cases, All, ℤ, pos,
  sub_ℕ, Bytes, nat_key, bytes_key, bit_and-mask, bit_and-flag, bit_or-high_low, bit_or-low_high,
  pow-pos, two_pow-suc, two_pow-add,
}
use android_hardware_mainlin.Sensors.Iio.ScanType.{IioScanType, element_bytes}
use android_hardware_mainlin.Sensors.Iio.Decode.{
  shift_in, read_big, read_little, read_word, extend_sign, extract_bits, to_int64, byte_at,
  decode_word, decode_raw, inverted_mask,
}
use android_hardware_mainlin.Sensors.Iio.ScanType.RoundTrip.{IsValid}
use native.Mathlib.Nat.{
  mul-le-mul_right, mod-lt, pow-le-pow_right, pow-suc, mod-eq_of_lt, div-eq_of_lt-le, div-eq_of_lt,
  mul-suc, lt_of_le_of_lt, div-le_self,
}

-- The words that bytes stand for: the first byte is the highest one, or the lowest.
abbrev pub big_word : (ℕ → ℕ) → ℕ → ℕ → ℕ
big_word src i zero = 0
big_word src i (suc n) = src i * 256 ^ n + big_word src (i + 1) n

abbrev pub little_word : (ℕ → ℕ) → ℕ → ℕ
little_word src zero = 0
little_word src (suc n) = src n * 256 ^ n + little_word src n

abbrev pub word_of : IioScanType → (ℕ → ℕ) → ℕ
word_of type src =
    if type.big_endian
    then big_word src 0 (element_bytes type)
    else little_word src (element_bytes type)

-- The number in `realbits` bits: two's complement if it is signed, and as int64_t if not.
abbrev pub signed_value : Bool → ℕ → ℕ → ℤ
signed_value is_signed realbits field =
    if is_signed && leb (2 ^ (realbits - 1)) field
    then sub_ℕ field (2 ^ realbits)
    else if ltb field (2 ^ 63)
    then pos field
    else sub_ℕ field (2 ^ 64)

small_word : (k v : ℕ) → k ≤ 7 → v < 256 ^ k → v < 2 ^ 56
small_word k v h lt = let le : 256 ^ k ≤ 256 ^ 7 = pow-le-pow_right (omega arith) h in omega arith

shift_in_lem : (k v b : ℕ) → k ≤ 7 → v < 256 ^ k → b < 256 → shift_in v b ≡ v * 256 + b
unfolding shift_in
shift_in_lem k v b h lt byte =
    let small = small_word k v h lt in
    let fits : v * 256 % 2 ^ 64 ≡ 256 * v = omega arith in
    rw fits (bit_or-high_low 8 v b byte ∙ omega arith)

shift_in-below : (k v b : ℕ) → v < 256 ^ k → b < 256 → v * 256 + b < 256 ^ suc k
shift_in-below k v b lt byte = omega (arith, pow-suc 256 k)

word-below : (b p r q : ℕ) → q ≡ p * 256 → b < 256 → r < p → b * p + r < q
word-below b p r q e h k =
    let le : b * p ≤ 255 * p = mul-le-mul_right p (omega arith) in omega arith

module _ (src : ℕ → ℕ) (bytes : (i : ℕ) → src i < 256) where
  read_big_lem :
      (n i k v : ℕ) → k + n ≤ 8 → v < 256 ^ k → read_big src n i v ≡ v * 256 ^ n + big_word src i n
  unfolding read_big
  read_big_lem zero i k v h lt = omega arith
  read_big_lem (suc n) i k v h lt =
      rw
        (
          shift_in_lem k v (src i) (omega arith) lt (bytes i),
          read_big_lem n (i + 1) (suc k) (v * 256 + src i) (omega arith)
              (shift_in-below k v (src i) lt (bytes i)),
          pow-suc 256 n,
        )
        omega arith

  read_little_lem :
      (n k v : ℕ) → k + n ≤ 8 → v < 256 ^ k → read_little src n v ≡ v * 256 ^ n + little_word src n
  unfolding read_little
  read_little_lem zero k v h lt = omega arith
  read_little_lem (suc n) k v h lt =
      rw
        (
          shift_in_lem k v (src n) (omega arith) lt (bytes n),
          read_little_lem n (suc k) (v * 256 + src n) (omega arith)
              (shift_in-below k v (src n) lt (bytes n)),
          pow-suc 256 n,
        )
        omega arith

  big_word-below : (i n : ℕ) → big_word src i n < 256 ^ n
  big_word-below i zero = omega arith
  big_word-below i (suc n) =
      word-below (src i) (256 ^ n) _ _ (pow-suc 256 n) (bytes i) (big_word-below (i + 1) n)

  little_word-below : (n : ℕ) → little_word src n < 256 ^ n
  little_word-below zero = omega arith
  little_word-below (suc n) =
      word-below (src n) (256 ^ n) _ _ (pow-suc 256 n) (bytes n) (little_word-below n)

  word_of-below : (type : IioScanType) → type.storagebits ≤ 64 → word_of type src < 2 ^ 64
  unfolding element_bytes
  word_of-below type h =
      let n = (type.storagebits + 7) / 8 in
      let le : 256 ^ n ≤ 256 ^ 8 = pow-le-pow_right (omega arith) {j = 8} (omega arith) in
      ground (arith, big_word-below 0 n, little_word-below n)

  read_word_lem :
      (type : IioScanType) → type.storagebits ≤ 64 → read_word type src ≡ word_of type src
  unfolding read_word element_bytes
  read_word_lem type h = elim (Bool-cases type.big_endian) [
    | inl big ↦
        rw (big, read_big_lem ((type.storagebits + 7) / 8) 0 0 0 (omega arith) (omega arith)) omega
          arith
    | inr little ↦
        rw (little, read_little_lem ((type.storagebits + 7) / 8) 0 0 (omega arith) (omega arith))
          omega arith
  ]

-- The sign bit of a field.
word_bound : (r : ℕ) → r < 64 → 2 ^ r ≤ 2 ^ 63
word_bound r h = pow-le-pow_right (omega arith) {j = 63} (omega arith)

high_half : (k field : ℕ) → 2 ^ k ≤ field → field < 2 ^ suc k → field / 2 ^ k ≡ 1
high_half k field ge lt = div-eq_of_lt-le (2 ^ k) (omega arith) (omega (arith, two_pow-suc k))

low_half : (k field : ℕ) → field < 2 ^ k → field / 2 ^ k ≡ 0
low_half k field lt = div-eq_of_lt lt

sign_bit :
    (k field : ℕ) → field < 2 ^ suc k → (bit_and field (2 ^ k) == 0) ≡ not (leb (2 ^ k) field)
sign_bit k field h = elim (Bool-cases (leb (2 ^ k) field)) [
  | inl high ↦
      rw (high, bit_and-flag k field, high_half k field (ground arith) h)
        (ground (arith, pow-pos k))
  | inr low ↦ rw (low, bit_and-flag k field, low_half k field (ground arith)) (ground arith)
]

pred_suc : (k : ℕ) → suc k - 1 ≡ k
pred_suc k = omega arith

complement : (w p q : ℕ) → w ≡ p * q → 0 < p → 0 < q → w - 1 - (p - 1) ≡ p * (q - 1)
complement w p zero e h k = absurd (omega arith)
complement w p (suc q) e h k = rw (pred_suc q) omega (arith, mul-suc p q)

inverted_mask_lem : (r : ℕ) → r < 64 → inverted_mask r ≡ 2 ^ r * (2 ^ (64 - r) - 1)
inverted_mask_lem r h =
    let sum : 64 ≡ r + (64 - r) = omega arith in
    let split : 2 ^ 64 ≡ 2 ^ r * 2 ^ (64 - r) = ap (λ k. 2 ^ k) sum ∙ two_pow-add r (64 - r) in
    (complement (2 ^ 64) (2 ^ r) (2 ^ (64 - r)) split (pow-pos r) (pow-pos (64 - r)))

set_high_bits :
    (r field : ℕ) → r < 64 → field < 2 ^ r → bit_or field (inverted_mask r) ≡ 2 ^ 64 - 2 ^ r + field
set_high_bits r field h lt =
    rw
      (
        inverted_mask_lem r h,
        bit_or-low_high r (2 ^ (64 - r) - 1) field lt,
        sym (inverted_mask_lem r h),
      )
      (omega (arith, word_bound r h))

is_negative :
    (s : Bool) (realbits field : ℕ)
    → 1 ≤ realbits
    → field < 2 ^ realbits
    → (s && not (bit_and field (2 ^ (realbits - 1)) == 0)) ≡ (s && leb (2 ^ (realbits - 1)) field)
is_negative s zero field one h = absurd (omega arith)
is_negative s (suc k) field one h = rw (pred_suc k, sign_bit k field h) ground arith

extend_sign_lem :
    (type : IioScanType) (field : ℕ)
    → 1 ≤ type.realbits
    → type.realbits < 64
    → field < 2 ^ type.realbits
    → to_int64 (extend_sign type field) ≡ signed_value type.is_signed type.realbits field
unfolding extend_sign to_int64
extend_sign_lem type field one small h =
    let bound = word_bound type.realbits small in
    rw
      (
        is_negative type.is_signed type.realbits field one h,
        set_high_bits type.realbits field small h,
      )
      elim (Bool-cases (type.is_signed && leb (2 ^ (type.realbits - 1)) field)) [
        | inl negative ↦ rw negative ground arith
        | inr positive ↦ rw positive ground arith
      ]

extract_bits_lem :
    (type : IioScanType) (value : ℕ)
    → 1 ≤ type.realbits
    → type.realbits ≤ 64
    → value < 2 ^ 64
    → to_int64 (extract_bits type value)
      ≡ signed_value type.is_signed type.realbits (value % 2 ^ type.realbits)
unfolding extract_bits to_int64
extract_bits_lem type value one most h = elim (Bool-cases (ltb type.realbits 64)) [
  | inl small ↦
      rw (small, bit_and-mask type.realbits value)
        (extend_sign_lem type (value % 2 ^ type.realbits) one (ground arith)
          (mod-lt value (pow-pos type.realbits)))
  | inr large ↦
      let whole : type.realbits ≡ 64 = ground arith in
      rw (large, whole, mod-eq_of_lt h) ground arith
]

byte_at-below : (scan : Bytes) (i : ℕ) → All (λ b. b < 256) scan → byte_at scan i < 256
unfolding byte_at
byte_at-below [] i h = omega arith
byte_at-below (b ∷ scan) zero h = h.0
byte_at-below (b ∷ scan) (suc i) h = byte_at-below scan i h.1

-- For a valid description and a scan buffer of bytes, DecodeRaw gives the number in the bits
-- shift .. shift + realbits - 1 of the word that the element's bytes stand for in their byte order:
-- in two's complement if it is signed, else as an unsigned number, which int64_t wraps at 2^63.
pub decode_raw-field :
    (type : IioScanType) (location : ℕ) (scan : Bytes) (element : ℕ)
    → IsValid type
    → All (λ b. b < 256) scan
    → decode_raw type location scan element
      ≡ signed_value type.is_signed type.realbits (
          word_of type (λ i. byte_at scan (location + element * element_bytes type + i))
          / 2 ^ type.shift
          % 2 ^ type.realbits)
unfolding decode_raw decode_word
decode_raw-field type location scan element v bytes =
    let inside = v.inside in
    let word = v.word in
    let src : ℕ → ℕ = λ i. byte_at scan (location + element * element_bytes type + i) in
    let below : (i : ℕ) → src i < 256 =
      λ i. byte_at-below scan (location + element * element_bytes type + i) bytes in
    rw (read_word_lem src below type v.word) (
      extract_bits_lem type (word_of type src / 2 ^ type.shift) v.some_bits (omega arith) (
        lt_of_le_of_lt (div-le_self (word_of type src) (2 ^ type.shift))
          (word_of-below src below type v.word)))
