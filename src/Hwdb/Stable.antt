-- ===== src/Hwdb/Stable.antt =====
-- The result of UdevSanitize (libraries/libhwdb/UdevSanitize.cpp), and sanitizing it again.
use android_hardware_mainlin.Prelude.{
  ℕ, suc, ◌-◌, ◌≡◌, ◌⊎◌, Bool, true, false, ◌&&◌, ◌||◌, [], ◌∷◌, leb, ◌==◌, Bytes, nat_key,
  bytes_key,
}
use android_hardware_mainlin.Hwdb.Udev.{
  is_allowed_char, is_allowed_input_char, announced, continued, starts_with_x,
}

-- White space: blank, and tab to carriage return.
abbrev pub is_white : ℕ → Bool
is_white c = c == 32 || (leb 9 c && leb c 13)

-- Nothing lets the byte stand where these bytes follow.
pub record IsBarred (c : ℕ) (rest : Bytes) : Type 0 where
  pub no_allowed_char : (is_allowed_char c || is_allowed_input_char c) ≡ false
  pub no_escape : (c == 92 && starts_with_x rest) ≡ false
  pub no_sequence : (announced c ≡ 0) ⊎ (continued (announced c - 1) rest ≡ false)

-- What sanitizing makes of a string of which the first n bytes belong to an escape or a sequence that
-- began before.
pub data IsSanitized : ℕ → Bytes → Bytes → Type 0 where
  ended : (n : ℕ) → IsSanitized n [] []
  inside : (n c : ℕ) (s t : Bytes) → IsSanitized n s t → IsSanitized (suc n) (c ∷ s) (c ∷ t)
  allowed :
      (c : ℕ) (s t : Bytes)
      → (is_allowed_char c || is_allowed_input_char c) ≡ true
      → IsSanitized 0 s t
      → IsSanitized 0 (c ∷ s) (c ∷ t)
  escaped :
      (c : ℕ) (s t : Bytes)
      → (c == 92 && starts_with_x s) ≡ true
      → IsSanitized 1 s t
      → IsSanitized 0 (c ∷ s) (c ∷ t)
  sequence :
      (c n : ℕ) (s t : Bytes)
      → announced c ≡ suc n
      → continued n s ≡ true
      → IsSanitized n s t
      → IsSanitized 0 (c ∷ s) (c ∷ t)
  white :
      (c : ℕ) (s t : Bytes)
      → IsBarred c s
      → is_white c ≡ true
      → IsSanitized 0 s t
      → IsSanitized 0 (c ∷ s) (32 ∷ t)
  other :
      (c : ℕ) (s t : Bytes)
      → IsBarred c s
      → is_white c ≡ false
      → IsSanitized 0 s t
      → IsSanitized 0 (c ∷ s) (95 ∷ t)
