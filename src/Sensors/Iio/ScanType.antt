-- ===== src/Sensors/Iio/ScanType.antt =====
-- interfaces/sensors/mainline/backends/iio/IioChannel.cpp and IioChannel.h: IioScanType, the
-- description of a scan element such as "le:s16/32X4>>0". ParseInt is a parameter (AndroidBase); its
-- results are below 2^31 in size, and the one addition of the code that can leave that range wraps.
use android_hardware_mainlin.Prelude.{
  ℕ, zero, suc, ◌+◌, ◌-◌, ◌*◌, ◌/◌, ◌%◌, ◌^◌, ◌≤◌, ◌<◌, bit_and, bit_or, String, ◌≡◌, refl, sym, ap,
  subst, ◌∙◌, ap₂, subst₂, ◌≢◌, ◌↔◌, ◌⊎◌, inl, inr, Bool, true, false, not, ◌&&◌, ◌||◌, Option,
  none, some, List, [], ◌∷◌, ◌++◌, map, append-nil, append_assoc, arith, ltb, leb, ◌==◌,
  if◌then◌else◌, ==_iff, ==_refl, Bool-cases, Option-cases, is_some, get_or_else, length,
  length-append, get_elem?, is_empty, any_of, find_if, All, All-append, All-mono, ℤ, pos, negsuc,
  pos_part, neg_part, sub_ℕ, ◌+ℤ◌, ◌-ℤ◌, ◌*ℤ◌, ◌≤ℤ◌, ◌<ℤ◌, ltb_ℤ, ◌==ℤ◌, ==ℤ_iff, min_ℤ, Bytes,
  codes, bytes_eq, bytes_eq_iff, Key, nat_key, bytes_key, lookup, insert, erase, lookup-insert,
  lookup-erase, contains, AndroidBase, SplitsAtEach, ◌>>=◌, ◌>>◌, guard, bit_and-mask, bit_and-flag,
  bit_or-high_low, bit_or-low_high, pow-pos, two_pow-suc, mod_unique,
}
pub mod RoundTrip

pub record IioScanType : Type 0 where
  pub big_endian : Bool
  pub is_signed : Bool
  pub realbits : ℕ
  pub storagebits : ℕ
  pub shift : ℕ
  pub repeat : ℕ

unfoldable pub element_bytes : IioScanType → ℕ
element_bytes type = (type.storagebits + 7) / 8

unfoldable pub total_bytes : IioScanType → ℕ
unfolding element_bytes
total_bytes type = element_bytes type * type.repeat

unfoldable pub is_digit : ℕ → Bool
is_digit c = leb b'0' c && leb c b'9'

-- The characters that the loop `while (... text[end] >= '0' ...)` passes, and the rest.
unfoldable pub leading_digits : Bytes → Bytes
leading_digits [] = []
leading_digits (c ∷ cs) = let rest = leading_digits cs in if is_digit c then c ∷ rest else []

unfoldable pub after_digits : Bytes → Bytes
after_digits [] = []
after_digits (c ∷ cs) = let rest = after_digits cs in if is_digit c then rest else c ∷ cs

-- The character that must come next.
unfoldable pub expect : ℕ → Bytes → Option Bytes
expect c [] = none
expect c (d ∷ text) = if d == c then some text else none

-- `text.compare(pos, n, literal) == 0`: the text after the literal.
unfoldable pub after_literal : Bytes → Bytes → Option Bytes
unfolding expect
after_literal [] text = some text
after_literal (c ∷ cs) text = expect c text >>= after_literal cs

-- parse_number without a stop character.
unfoldable pub parse_number : AndroidBase → Bytes → Option (ℤ × Bytes)
parse_number base text = do
  guard (not (is_empty (leading_digits text)))
  value ← base.parse_int (leading_digits text)
  some (value, after_digits text)

-- parse_number with a stop character.
unfoldable pub parse_number_until : AndroidBase → ℕ → Bytes → Option (ℤ × Bytes)
parse_number_until base stop text = do
  number ← parse_number base text
  rest ← expect stop number.1
  some (number.0, rest)

-- A number behind a literal; without the literal, the default.
unfoldable pub parse_optional : AndroidBase → Bytes → ℤ → Bytes → Option (ℤ × Bytes)
parse_optional base literal default text = elim (after_literal literal text) [
  | none ↦ some (default, text)
  | some rest ↦ parse_number base rest
]

-- The literal that says true, or the one that says false.
unfoldable pub parse_flag : Bytes → Bytes → Bytes → Option (Bool × Bytes)
parse_flag yes_literal no_literal text = elim (after_literal yes_literal text) [
  | some rest ↦ some (true, rest)
  | none ↦ elim (after_literal no_literal text) [ some rest ↦ some (false, rest) | none ↦ none ]
]

-- int + int, with the wrap-around of the machine.
unfoldable pub int_add : ℤ → ℤ → ℤ
int_add a b =
    let sum = a +ℤ b in
    if ltb_ℤ sum (pos (2 ^ 31))
    then (if ltb_ℤ sum (negsuc (2 ^ 31 - 1)) then sum +ℤ pos (2 ^ 32) else sum)
    else sum -ℤ pos (2 ^ 32)

-- The last test of Parse.
unfoldable pub is_rejected : ℤ → ℤ → ℤ → Bool
is_rejected realbits storagebits shift =
    not (ltb_ℤ (pos 0) storagebits)
    || ltb_ℤ (pos 64) storagebits
    || not (ltb_ℤ (pos 0) realbits)
    || ltb_ℤ (pos 64) realbits
    || ltb_ℤ shift (pos 0)
    || ltb_ℤ storagebits (int_add realbits shift)

-- The numbers that the tests let through are not negative.
unfoldable pub checked_type : Bool → Bool → ℤ → ℤ → ℤ → ℤ → Option IioScanType
checked_type big_endian is_signed realbits storagebits repeat shift =
    if is_rejected realbits storagebits shift
    then none
    else some record {
      big_endian = big_endian;
      is_signed = is_signed;
      realbits = pos_part realbits;
      storagebits = pos_part storagebits;
      shift = pos_part shift;
      repeat = if ltb_ℤ repeat (pos 1) then 1 else pos_part repeat;
    }

unfoldable pub parse_scan_type : AndroidBase → Bytes → Option IioScanType
parse_scan_type base text = do
  endianness ← parse_flag (codes "be:") (codes "le:") text
  sign ← parse_flag (codes "s") (codes "u") endianness.1
  realbits ← parse_number_until base b'/' sign.1
  storagebits ← parse_number base realbits.1
  repeat ← parse_optional base (codes "X") (pos 1) storagebits.1
  shift ← parse_optional base (codes ">>") (pos 0) repeat.1
  checked_type endianness.0 sign.0 realbits.0 storagebits.0 repeat.0 shift.0

-- `%d` of an int that is not negative; n is enough fuel for its digits.
unfoldable pub decimal_digits : ℕ → ℕ → Bytes
decimal_digits zero n = (b'0' + n) ∷ []
decimal_digits (suc fuel) n =
    let more = decimal_digits fuel (n / 10) in
    if ltb n 10 then (b'0' + n) ∷ [] else more ++ (b'0' + n % 10) ∷ []

unfoldable pub decimal : ℕ → Bytes
unfolding decimal_digits
decimal n = decimal_digits n n

unfoldable pub repeat_text : ℕ → Bytes → Bytes
unfolding decimal
repeat_text repeat rest = if ltb 1 repeat then codes "X" ++ (decimal repeat ++ rest) else rest

unfoldable pub to_string : IioScanType → Bytes
unfolding decimal repeat_text
to_string type =
    (if type.big_endian then codes "be:" else codes "le:")
    ++ ((if type.is_signed then codes "s" else codes "u")
        ++ (decimal type.realbits
            ++ (b'/' ∷ decimal type.storagebits
                ++ repeat_text type.repeat (codes ">>" ++ decimal type.shift))))
