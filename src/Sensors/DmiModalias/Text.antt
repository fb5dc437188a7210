-- ===== src/Sensors/DmiModalias/Text.antt =====
-- The texts that AppendFiltered and AppendRelease of DmiModalias.cpp append.
use android_hardware_mainlin.Prelude.{
  ℕ, ◌+◌, ◌/◌, ◌%◌, ◌<◌, String, ◌≡◌, refl, inl, inr, Bool, true, false, ◌&&◌, Option, none, some,
  [], ◌∷◌, ◌++◌, arith, ltb, ◌==◌, if◌then◌else◌, Bool-cases, ℤ, pos, negsuc, Bytes, codes, nat_key,
  bytes_key,
}
use android_hardware_mainlin.Sensors.DmiModalias.{
  colon, is_kept, filtered, append_filtered, decimal, append_release, chassis_text,
}

abbrev pub is_printable : ℕ → Bool
is_printable c = ltb 32 c && ltb c 127

abbrev pub all_printable : Bytes → Bool
all_printable [] = true
all_printable (c ∷ cs) = is_printable c && all_printable cs

pub record IsPrintable (s : Bytes) : Type 0 where
  pub printable : all_printable s ≡ true

pub all_printable-append :
    (a b : Bytes) → all_printable a ≡ true → all_printable b ≡ true → all_printable (a ++ b) ≡ true
all_printable-append [] b p q = q
all_printable-append (c ∷ a) b p q = ground (arith, all_printable-append a b)

infixl 40 ◌+++◌
pub ◌+++◌ : {a b : Bytes} → IsPrintable a → IsPrintable b → IsPrintable (a ++ b)
◌+++◌ {a = a} {b = b} p q = record { printable = all_printable-append a b p.printable q.printable }

pub colon-IsPrintable : IsPrintable (colon ∷ [])
colon-IsPrintable = record { printable = refl }

pub filtered-IsPrintable : (s : Bytes) → IsPrintable (filtered s)
unfolding filtered is_kept
filtered-IsPrintable [] = record { printable = refl }
filtered-IsPrintable (c ∷ cs) = elim (Bool-cases (is_kept c)) [
  | inl kept ↦ rw kept (record { printable = ground (arith, (filtered-IsPrintable cs).printable) })
  | inr dropped ↦ rw dropped (filtered-IsPrintable cs)
]

pub append_filtered-IsPrintable :
    (out : Bytes) (prefix : String) (value : Option Bytes)
    → IsPrintable out
    → IsPrintable (codes prefix)
    → IsPrintable (append_filtered out prefix value)
unfolding append_filtered
append_filtered-IsPrintable out prefix none p q = p
append_filtered-IsPrintable out prefix (some []) p q = p
append_filtered-IsPrintable out prefix (some (c ∷ cs)) p q =
    p +++ q +++ filtered-IsPrintable (c ∷ cs) +++ colon-IsPrintable

pub if-IsPrintable :
    (b : Bool) (s t : Bytes) → IsPrintable s → IsPrintable t → IsPrintable (if b then s else t)
if-IsPrintable true s t p q = p
if-IsPrintable false s t p q = q

pub digit : (n : ℕ) → n < 10 → is_printable (48 + n) ≡ true
digit n l = ground arith

pub all_printable-decimal : (n : ℕ) → all_printable (decimal n) ≡ true
unfolding decimal
all_printable-decimal n = elim (Bool-cases (ltb n 10)) [
  | inl one ↦ rw one (rw (digit n (ground arith)) refl)
  | inr more ↦ rw more (elim (Bool-cases (ltb n 100)) [
    | inl two ↦ rw two (rw (digit (n / 10) (ground arith)) (rw (digit (n % 10) (omega arith)) refl))
    | inr three ↦ rw three (
        rw (digit (n / 100 % 10) (omega arith))
          (rw (digit (n / 10 % 10) (omega arith)) (rw (digit (n % 10) (omega arith)) refl)))
  ])
]

pub decimal-IsPrintable : (n : ℕ) → IsPrintable (decimal n)
decimal-IsPrintable n = record { printable = all_printable-decimal n }

pub dot-IsPrintable : IsPrintable (46 ∷ [])
dot-IsPrintable = record { printable = refl }

pub append_release-IsPrintable :
    (out : Bytes) (prefix : String) (major minor : ℕ)
    → IsPrintable out
    → IsPrintable (codes prefix)
    → IsPrintable (append_release out prefix major minor)
unfolding append_release
append_release-IsPrintable out prefix major minor p q =
    if-IsPrintable ((major == 255) && (minor == 255)) _ _ p (
      p
      +++ q
      +++ decimal-IsPrintable major
      +++ dot-IsPrintable
      +++ decimal-IsPrintable minor
      +++ colon-IsPrintable)

pub literal : (s : String) → all_printable (codes s) ≡ true → IsPrintable (codes s)
literal s p = record { printable = p }

pub chassis_text-IsPrintable : (t : ℤ) → IsPrintable (chassis_text t)
chassis_text-IsPrintable (pos n) = literal "ct" refl +++ decimal-IsPrintable n +++ colon-IsPrintable
chassis_text-IsPrintable (negsuc n) = record { printable = refl }
