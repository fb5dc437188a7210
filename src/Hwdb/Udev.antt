-- ===== src/Hwdb/Udev.antt =====
-- libraries/libhwdb/UdevSanitize.cpp. The index of the loop is the number of bytes still to be kept
-- as they are: what lies before it is written, what follows is as it was.
use android_hardware_mainlin.Prelude.{
  ℕ, zero, suc, ◌-◌, bit_and, Bool, true, false, ◌&&◌, ◌||◌, [], ◌∷◌, leb, ◌==◌, if◌then◌else◌,
  Bytes, codes, nat_key, bytes_key, contains,
}
use android_hardware_mainlin.Hwdb.Parser.{is_space}

abbrev pub backslash : ℕ
backslash = 92

abbrev pub underscore : ℕ
underscore = b'_'

abbrev pub blank : ℕ
blank = b' '

-- strchr of a constant string; its terminating NUL is excluded by the source.
abbrev one_of : Bytes → ℕ → Bool
one_of cs c = contains c cs

unfoldable pub is_allowed_char : ℕ → Bool
is_allowed_char c =
    (leb b'0' c && leb c b'9')
    || (leb b'a' c && leb c b'z')
    || (leb b'A' c && leb c b'Z')
    || one_of (codes "#+-.:=@_") c

unfoldable pub is_allowed_input_char : ℕ → Bool
is_allowed_input_char c = one_of (codes "/ $%?,") c

-- The length that a lead byte announces, or 0.
unfoldable pub announced : ℕ → ℕ
announced lead =
    if bit_and lead 0xe0 == 0xc0
    then 2
    else (if bit_and lead 0xf0 == 0xe0 then 3 else (if bit_and lead 0xf8 == 0xf0 then 4 else 0))

unfoldable pub is_continuation : ℕ → Bool
is_continuation c = bit_and c 0xc0 == 0x80

-- Whether n continuation bytes follow.
unfoldable pub continued : ℕ → Bytes → Bool
continued zero s = true
continued (suc n) [] = false
continued (suc n) (c ∷ cs) = let rest = continued n cs in is_continuation c && rest

-- Utf8SequenceLength at the byte `lead`, with what follows it.
unfoldable pub utf8_sequence_length : ℕ → Bytes → ℕ
utf8_sequence_length lead rest = if continued (announced lead - 1) rest then announced lead else 0

abbrev pub starts_with_x : Bytes → Bool
starts_with_x [] = false
starts_with_x (c ∷ cs) = c == b'x'

-- How many bytes the loop steps over unchanged at `c`; 0 if it replaces c.
unfoldable pub kept_length : ℕ → Bytes → ℕ
kept_length c rest =
    if is_allowed_char c || is_allowed_input_char c
    then 1
    else (if c == backslash && starts_with_x rest then 2 else utf8_sequence_length c rest)

unfoldable pub replacement : ℕ → ℕ
replacement c = if is_space c then blank else underscore

-- The loop, with the number of bytes to keep before the next test.
unfoldable pub sanitize_from : ℕ → Bytes → Bytes
sanitize_from keep [] = []
sanitize_from (suc keep) (c ∷ cs) = c ∷ sanitize_from keep cs
sanitize_from zero (c ∷ cs) = elim (kept_length c cs) [
  | zero ↦ replacement c ∷ sanitize_from zero cs
  | suc n ↦ c ∷ sanitize_from n cs
]

unfoldable pub udev_sanitize : Bytes → Bytes
udev_sanitize value = sanitize_from 0 value
