-- ===== src/Prelude/Base.antt =====
-- libbase, which the sources call and which is not in the repository: a parameter of the models.
use Prim.Native.Nat.{ℕ}
use mathlib.Core.Path.{◌≡◌}
use mathlib.Core.Bool.{Bool}
use mathlib.Core.Option.{Option}
use mathlib.Core.List.{List, [], ◌∷◌, ◌++◌}
use android_hardware_mainlin.Prelude.Byte.{Bytes}
use android_hardware_mainlin.Prelude.Ints.{ℤ}

pub record AndroidBase : Type 0 where
  pub split : Bytes → ℕ → List Bytes
  pub trim : Bytes → Bytes
  pub starts_with : Bytes → Bytes → Bool
  pub ends_with : Bytes → Bytes → Bool
  pub parse_int : Bytes → Option ℤ
  pub parse_bool : Bytes → Option Bool
  pub parse_double : Bytes → Option ℕ

-- What the documentation of android::base::Split says: the string is cut at each delimiter, and
-- the empty pieces are kept.
pub record SplitsAtEach (base : AndroidBase) : Type 0 where
  pub split-nil : (d : ℕ) → base.split [] d ≡ [] ∷ []
  pub split_delimiter :
      (a b : Bytes) (d : ℕ) → base.split (a ++ d ∷ b) d ≡ base.split a d ++ base.split b d
