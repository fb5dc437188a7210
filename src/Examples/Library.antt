-- ===== src/Examples/Library.antt =====
-- A concrete libbase and concrete flag bits for the examples.
use android_hardware_mainlin.Prelude.{
  ℕ, bit_and, bit_or, ◌≡◌, refl, ap, ◌≢◌, inl, inr, Bool, true, false, ◌&&◌, ◌||◌, none, some, List,
  [], ◌∷◌, ◌++◌, arith, ◌==◌, if◌then◌else◌, ==_refl, Bool-cases, is_empty, Bytes, codes, bytes_eq,
  nat_key, bytes_key, AndroidBase, SplitsAtEach,
}
use android_hardware_mainlin.Sensors.SensorTypes.Modes.{FlagBits, mode_bits, IsLayout}
use android_hardware_mainlin.Sensors.SensorTypes.Traits.{
  ReportingMode, continuous, on_change, one_shot, special,
}

abbrev join_head : ℕ → List Bytes → List Bytes
join_head c [] = (c ∷ []) ∷ []
join_head c (x ∷ xs) = (c ∷ x) ∷ xs

abbrev pub split_at : Bytes → ℕ → List Bytes
split_at [] d = [] ∷ []
split_at (c ∷ cs) d = let rest = split_at cs d in if c == d then [] ∷ rest else join_head c rest

join_head-nonempty : (c : ℕ) (l : List Bytes) → is_empty (join_head c l) ≡ false
join_head-nonempty c [] = refl
join_head-nonempty c (x ∷ xs) = refl

split_at-nonempty : (s : Bytes) (d : ℕ) → is_empty (split_at s d) ≡ false
split_at-nonempty [] d = refl
split_at-nonempty (c ∷ cs) d = elim (Bool-cases (c == d)) [
  | inl cut ↦ rw cut refl
  | inr kept ↦ rw kept (join_head-nonempty c (split_at cs d))
]

join_head-append :
    (c : ℕ) (l t : List Bytes) → is_empty l ≡ false → join_head c (l ++ t) ≡ join_head c l ++ t
join_head-append c [] t e = absurd (ground arith)
join_head-append c (x ∷ xs) t e = refl

split_at-append : (a b : Bytes) (d : ℕ) → split_at (a ++ d ∷ b) d ≡ split_at a d ++ split_at b d
split_at-append [] b d = rw (==_refl d) refl
split_at-append (c ∷ a) b d = elim (Bool-cases (c == d)) [
  | inl cut ↦ rw cut (ap (◌∷◌ []) (split_at-append a b d))
  | inr kept ↦ rw kept (
      rw (split_at-append a b d)
        (join_head-append c (split_at a d) (split_at b d) (split_at-nonempty a d)))
]

abbrev drop_blanks : Bytes → Bytes
drop_blanks [] = []
drop_blanks (c ∷ cs) = let rest = drop_blanks cs in if c == 32 then rest else c ∷ cs

abbrev pub has_prefix : Bytes → Bytes → Bool
has_prefix s [] = true
has_prefix [] (p ∷ ps) = false
has_prefix (c ∷ cs) (p ∷ ps) = (c == p) && has_prefix cs ps

abbrev pub has_suffix : Bytes → Bytes → Bool
has_suffix [] q = is_empty q
has_suffix (c ∷ cs) q = bytes_eq (c ∷ cs) q || has_suffix cs q

-- No text is a number; `trim` drops the blanks before the text.
abbrev pub sample_base : AndroidBase
sample_base = record {
  split = split_at;
  trim = drop_blanks;
  starts_with = has_prefix;
  ends_with = has_suffix;
  parse_int = λ s. none;
  parse_bool = λ s. if bytes_eq s (codes "true") then some true else none;
  parse_double = λ s. none;
}

pub sample_base-SplitsAtEach : SplitsAtEach sample_base
sample_base-SplitsAtEach = record { split-nil = λ d. refl; split_delimiter = split_at-append }

-- The values of the AIDL interface.
abbrev pub sample_bits : FlagBits
sample_bits = record {
  continuous_mode = 0;
  on_change_mode = 2;
  one_shot_mode = 4;
  special_reporting_mode = 6;
  mask_reporting_mode = 14;
  wake_up = 1;
  data_injection = 16;
}

masked : (m : ReportingMode) → bit_and (mode_bits sample_bits m) 14 ≡ mode_bits sample_bits m
masked continuous = refl
masked on_change = refl
masked one_shot = refl
masked special = refl

masked_wake :
    (m : ReportingMode) → bit_and (bit_or (mode_bits sample_bits m) 1) 14 ≡ mode_bits sample_bits m
masked_wake continuous = refl
masked_wake on_change = refl
masked_wake one_shot = refl
masked_wake special = refl

wake_clear : (m : ReportingMode) → bit_and (mode_bits sample_bits m) 1 ≡ 0
wake_clear continuous = refl
wake_clear on_change = refl
wake_clear one_shot = refl
wake_clear special = refl

wake_set : (m : ReportingMode) → bit_and (bit_or (mode_bits sample_bits m) 1) 1 ≢ 0
wake_set continuous = omega arith
wake_set on_change = omega arith
wake_set one_shot = omega arith
wake_set special = omega arith

pub sample_bits-IsLayout : IsLayout sample_bits
sample_bits-IsLayout = record {
  masked = masked;
  masked_wake_up = masked_wake;
  wake_up_clear = wake_clear;
  wake_up_set = wake_set;
  on_change-ne-continuous = omega arith;
  one_shot-ne-continuous = omega arith;
  special-ne-continuous = omega arith;
  one_shot-ne-on_change = omega arith;
  special-ne-on_change = omega arith;
  special-ne-one_shot = omega arith;
}
