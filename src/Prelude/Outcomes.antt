-- ===== src/Prelude/Outcomes.antt =====
-- Properties of a result, if there is one.
use mathlib.Core.Path.{◌≡◌, refl, subst}
use mathlib.Core.Bool.{Bool, true, false}
use mathlib.Core.Option.{Option, none, some}
use android_hardware_mainlin.Prelude.Tests.{◌>>=◌, guard, if◌then◌else◌}

abbrev pub OnSome {ℓ κ} : {A : Type ℓ} → (A → Type κ) → Option A → Type κ
OnSome P none = Unit
OnSome P (some a) = P a

pub OnSome-mono {ℓ κ μ} :
    {A : Type ℓ} (P : A → Type κ) (Q : A → Type μ) (o : Option A)
    → ((a : A) → P a → Q a)
    → OnSome P o
    → OnSome Q o
OnSome-mono P Q none f h = tt
OnSome-mono P Q (some a) f h = f a h

-- The same, for results that are not computed.
pub record Holds {ℓ κ} {A : Type ℓ} (P : A → Type κ) (o : Option A) : Type κ where
  pub held : OnSome P o

pub >>=-Holds {ℓ κ μ} :
    {A : Type ℓ} {B : Type κ} {P : B → Type μ} (m : Option A) {f : A → Option B}
    → ((a : A) → m ≡ some a → Holds P (f a))
    → Holds P (m >>= f)
>>=-Holds none h = record { held = tt }
>>=-Holds (some a) h = h a refl

pub guard-Holds {κ μ} :
    {B : Type κ} {P : B → Type μ} (b : Bool) {m : Option B}
    → (b ≡ true → Holds P m)
    → Holds P (guard b >>= λ _. m)
guard-Holds true h = h refl
guard-Holds false h = record { held = tt }

pub Holds-some {ℓ κ} :
    {A : Type ℓ} {P : A → Type κ} {o : Option A} (a : A) → Holds P o → o ≡ some a → P a
Holds-some {P = P} a h e = subst (OnSome P) e h.held

pub OnSome-some {ℓ κ} :
    {A : Type ℓ} (P : A → Type κ) {o : Option A} (a : A) → OnSome P o → o ≡ some a → P a
OnSome-some P a h e = subst (OnSome P) e h

-- A property of both branches, each under its condition.
pub if_holds {ℓ κ} :
    {A : Type ℓ} (P : A → Type κ) (b : Bool) {x y : A}
    → (b ≡ true → P x)
    → (b ≡ false → P y)
    → P (if b then x else y)
if_holds P true h k = h refl
if_holds P false h k = k refl
