-- ===== src/Sensors/Iio/ScanType/RoundTrip.antt =====
-- interfaces/sensors/mainline/backends/iio/IioChannel.cpp: IioScanType::Parse and ToString.
use android_hardware_mainlin.Prelude.{
  ℕ, zero, suc, ◌+◌, ◌-◌, ◌*◌, ◌/◌, ◌%◌, ◌^◌, ◌≤◌, ◌<◌, ◌≡◌, refl, ap, subst, ◌⊎◌, inl, inr, Bool,
  true, false, not, some, [], ◌∷◌, ◌++◌, append-nil, arith, ltb, if◌then◌else◌, Bool-cases,
  is_empty, All, All-append, ℤ, pos, Bytes, codes, nat_key, bytes_key, AndroidBase, Holds,
  >>=-Holds, Holds-some,
}
use android_hardware_mainlin.Sensors.Iio.ScanType.{
  IioScanType, is_digit, leading_digits, after_digits, parse_number, decimal, decimal_digits,
  parse_scan_type, to_string, checked_type, is_rejected, int_add, parse_number_until, expect,
  parse_optional, parse_flag, after_literal, repeat_text,
}

-- The number that a text of digits spells, after the digits of `n`.
abbrev pub decimal_value : ℕ → Bytes → ℕ
decimal_value n [] = n
decimal_value n (c ∷ cs) = decimal_value (n * 10 + (c - b'0')) cs

-- What the documentation of android::base::ParseInt says of texts of digits: the value, if it is
-- an int.
pub record ParsesDecimals (base : AndroidBase) : Type 0 where
  pub parse_digits :
      (text : Bytes)
      → All (λ c. is_digit c ≡ true) text
      → is_empty text ≡ false
      → decimal_value 0 text < 2 ^ 31
      → base.parse_int text ≡ some (pos (decimal_value 0 text))

-- A description that the kernel prints: the field lies inside the storage word.
pub record IsValid (type : IioScanType) : Type 0 where
  pub some_bits : 1 ≤ type.realbits
  pub inside : type.realbits + type.shift ≤ type.storagebits
  pub word : type.storagebits ≤ 64
  pub repeated : 1 ≤ type.repeat
  pub repeat_int : type.repeat < 2 ^ 31

decimal_value-append :
    (n : ℕ) (xs ys : Bytes) → decimal_value n (xs ++ ys) ≡ decimal_value (decimal_value n xs) ys
decimal_value-append n [] ys = refl
decimal_value-append n (x ∷ xs) ys = decimal_value-append (n * 10 + (x - b'0')) xs ys

decimal_digits-value : (fuel n : ℕ) → n ≤ fuel → decimal_value 0 (decimal_digits fuel n) ≡ n
unfolding decimal_digits
decimal_digits-value zero n h = omega arith
decimal_digits-value (suc fuel) n h = elim (Bool-cases (ltb n 10)) [
  | inl small ↦ rw small omega arith
  | inr large ↦
      rw
        (
          large,
          decimal_value-append 0 (decimal_digits fuel (n / 10)) ((b'0' + n % 10) ∷ []),
          decimal_digits-value fuel (n / 10) (ground arith),
        )
        omega arith
]

is_digit-add : (n : ℕ) → n < 10 → is_digit (b'0' + n) ≡ true
unfolding is_digit
is_digit-add n h = ground arith

decimal_digits-digits :
    (fuel n : ℕ) → n ≤ fuel → All (λ c. is_digit c ≡ true) (decimal_digits fuel n)
unfolding decimal_digits
decimal_digits-digits zero n h = (is_digit-add n (omega arith), tt)
decimal_digits-digits (suc fuel) n h = elim (Bool-cases (ltb n 10)) [
  | inl small ↦ rw small (is_digit-add n (ground arith), tt)
  | inr large ↦ rw large (
      All-append _ (decimal_digits fuel (n / 10)) _
        (decimal_digits-digits fuel (n / 10) (ground arith))
        (is_digit-add (n % 10) (omega arith), tt))
]

append-nonempty : (xs : Bytes) (y : ℕ) → is_empty (xs ++ y ∷ []) ≡ false
append-nonempty [] y = refl
append-nonempty (x ∷ xs) y = refl

decimal_digits-nonempty : (fuel n : ℕ) → is_empty (decimal_digits fuel n) ≡ false
unfolding decimal_digits
decimal_digits-nonempty zero n = refl
decimal_digits-nonempty (suc fuel) n = elim (Bool-cases (ltb n 10)) [
  | inl small ↦ rw small refl
  | inr large ↦ rw large (append-nonempty (decimal_digits fuel (n / 10)) _)
]

-- The text after a number does not go on with a digit.
abbrev pub stops : Bytes → Bool
stops [] = true
stops (c ∷ cs) = not (is_digit c)

leading_digits-append :
    (ds rest : Bytes)
    → All (λ c. is_digit c ≡ true) ds
    → stops rest ≡ true
    → leading_digits (ds ++ rest) ≡ ds
unfolding leading_digits
leading_digits-append [] [] h k = refl
leading_digits-append [] (c ∷ cs) h k = ground arith
leading_digits-append (d ∷ ds) rest h k = rw h.0 (ap (◌∷◌ d) (leading_digits-append ds rest h.1 k))

after_digits-append :
    (ds rest : Bytes)
    → All (λ c. is_digit c ≡ true) ds
    → stops rest ≡ true
    → after_digits (ds ++ rest) ≡ rest
unfolding after_digits
after_digits-append [] [] h k = refl
after_digits-append [] (c ∷ cs) h k = ground arith
after_digits-append (d ∷ ds) rest h k = rw h.0 (after_digits-append ds rest h.1 k)

-- A printed number is read back, and the text after it is left.
parse_number-decimal :
    (base : AndroidBase) (n : ℕ) (rest : Bytes)
    → ParsesDecimals base
    → n < 2 ^ 31
    → stops rest ≡ true
    → parse_number base (decimal n ++ rest) ≡ some (pos n, rest)
unfolding parse_number decimal
parse_number-decimal base n rest h small stop =
    let digits : All (λ c. is_digit c ≡ true) (decimal_digits n n) =
      decimal_digits-digits n n (omega arith) in
    let value = decimal_digits-value n n (omega arith) in
    rw
      (
        leading_digits-append (decimal_digits n n) rest digits stop,
        after_digits-append (decimal_digits n n) rest digits stop,
        decimal_digits-nonempty n n,
        h.parse_digits (decimal_digits n n) digits (decimal_digits-nonempty n n) (rw value small),
        value,
      )
      refl

checked_type-IsValid :
    (type : IioScanType)
    → IsValid type
    → checked_type type.big_endian type.is_signed
        (pos type.realbits)
        (pos type.storagebits)
        (pos type.repeat)
        (pos type.shift)
      ≡ some type
unfolding checked_type is_rejected int_add
checked_type-IsValid type h =
    let a = h.some_bits in let b = h.inside in let c = h.word in let d = h.repeated in ground arith

parse_endianness :
    (b : Bool) (rest : Bytes)
    → parse_flag (codes "be:") (codes "le:") ((if b then codes "be:" else codes "le:") ++ rest)
      ≡ some (b, rest)
unfolding parse_flag after_literal expect
parse_endianness true rest = refl
parse_endianness false rest = refl

parse_sign :
    (b : Bool) (rest : Bytes)
    → parse_flag (codes "s") (codes "u") ((if b then codes "s" else codes "u") ++ rest)
      ≡ some (b, rest)
unfolding parse_flag after_literal expect
parse_sign true rest = refl
parse_sign false rest = refl

repeat_text-stops : (n : ℕ) (rest : Bytes) → stops (repeat_text n (codes ">>" ++ rest)) ≡ true
unfolding repeat_text is_digit
repeat_text-stops n rest = ground arith

module _ (base : AndroidBase) (h : ParsesDecimals base) where
  parse_realbits :
      (n : ℕ) (rest : Bytes)
      → n < 2 ^ 31
      → parse_number_until base b'/' (decimal n ++ b'/' ∷ rest) ≡ some (pos n, rest)
  unfolding parse_number_until expect is_digit
  parse_realbits n rest small = rw (parse_number-decimal base n (b'/' ∷ rest) h small refl) refl

  parse_shift :
      (n : ℕ)
      → n < 2 ^ 31
      → parse_optional base (codes ">>") (pos 0) (codes ">>" ++ decimal n) ≡ some (pos n, [])
  unfolding parse_optional after_literal expect
  parse_shift n small =
      subst (λ text. parse_number base text ≡ some (pos n, [])) (append-nil (decimal n))
        (parse_number-decimal base n [] h small refl)

  parse_repeat :
      (n : ℕ) (rest : Bytes)
      → 1 ≤ n
      → n < 2 ^ 31
      → parse_optional base (codes "X") (pos 1) (repeat_text n (codes ">>" ++ rest))
        ≡ some (pos n, codes ">>" ++ rest)
  unfolding parse_optional after_literal expect repeat_text is_digit
  parse_repeat n rest one small = elim (Bool-cases (ltb 1 n)) [
    | inl many ↦ rw (many, parse_number-decimal base n (codes ">>" ++ rest) h small refl) refl
    | inr few ↦ rw few (ap (λ k. some (pos k, codes ">>" ++ rest)) (ground arith))
  ]

-- Printing a description whose field lies inside its word of at most 64 bits, and reading the text
-- back, gives the description, if ParseInt reads decimal numbers.
pub parse_scan_type-to_string :
    (base : AndroidBase) (type : IioScanType)
    → ParsesDecimals base
    → IsValid type
    → parse_scan_type base (to_string type) ≡ some type
unfolding parse_scan_type to_string
parse_scan_type-to_string base type h v =
    let a = v.inside in
    let b = v.word in
    let last = codes ">>" ++ decimal type.shift in
    rw
      (
        parse_endianness type.big_endian _,
        parse_sign type.is_signed _,
        parse_realbits base h type.realbits _ (omega arith),
        parse_number-decimal base type.storagebits (repeat_text type.repeat last) h (omega arith)
            (repeat_text-stops type.repeat (decimal type.shift)),
        parse_repeat base h type.repeat (decimal type.shift) v.repeated v.repeat_int,
        parse_shift base h type.shift (omega arith),
        checked_type-IsValid type v,
      )
      refl

-- What Parse lets through.
pub record IsAccepted (type : IioScanType) : Type 0 where
  pub some_bits : 1 ≤ type.realbits
  pub most_bits : type.realbits ≤ 64
  pub some_word : 1 ≤ type.storagebits
  pub most_word : type.storagebits ≤ 64
  pub repeated : 1 ≤ type.repeat
  pub inside_or_overflow :
      (type.realbits + type.shift ≤ type.storagebits) ⊎ (2 ^ 31 ≤ type.realbits + type.shift)

checked_type-IsAccepted :
    (b s : Bool) (realbits storagebits repeat shift : ℤ)
    → Holds IsAccepted (checked_type b s realbits storagebits repeat shift)
unfolding checked_type is_rejected int_add
checked_type-IsAccepted b s realbits storagebits repeat shift = record { held = ground arith }

-- Whatever ParseInt gives, a description that Parse returns has 1 to 64 value bits, a storage word of
-- 1 to 64 bits and a repeat of at least 1, and its field lies inside the word, unless the sum of
-- realbits and shift has left the range of int.
pub parse_scan_type-IsAccepted :
    (base : AndroidBase) (text : Bytes) (type : IioScanType)
    → parse_scan_type base text ≡ some type
    → IsAccepted type
unfolding parse_scan_type
parse_scan_type-IsAccepted base text type e =
    Holds-some type
      (>>=-Holds (parse_flag (codes "be:") (codes "le:") text) λ endianness _.
        >>=-Holds (parse_flag (codes "s") (codes "u") endianness.1) λ sign _.
          >>=-Holds (parse_number_until base b'/' sign.1) λ realbits _.
            >>=-Holds (parse_number base realbits.1) λ storagebits _.
              >>=-Holds (parse_optional base (codes "X") (pos 1) storagebits.1) λ repeat _.
                >>=-Holds (parse_optional base (codes ">>") (pos 0) repeat.1) λ shift _.
                  checked_type-IsAccepted endianness.0 sign.0 realbits.0 storagebits.0 repeat.0
                    shift.0)
      e
