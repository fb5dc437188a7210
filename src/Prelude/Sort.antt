-- ===== src/Prelude/Sort.antt =====
-- std::sort, as the insertion sort; of elements that compare equal it keeps the order.
use mathlib.Core.Path.{◌≡◌, refl, ap, ◌∙◌}
use mathlib.Core.Logic.{inl, inr}
use mathlib.Core.Bool.{Bool, true, false, ◌||◌}
use mathlib.Core.List.{List, [], ◌∷◌, Perm}
use mathlib.Core.List.Perm
use android_hardware_mainlin.Prelude.Tests.{if◌then◌else◌, Bool-cases}
use android_hardware_mainlin.Prelude.Lists.{All, All-mono, any_of}

or_swap : (a b c : Bool) → (a || (b || c)) ≡ (b || (a || c))
or_swap true true c = refl
or_swap true false c = refl
or_swap false b c = refl

module _ {ℓ} {A : Type ℓ} (less : A → A → Bool) where
  abbrev pub insert_sorted : A → List A → List A
  insert_sorted x [] = x ∷ []
  insert_sorted x (y ∷ ys) =
      let rest = insert_sorted x ys in if less y x then y ∷ rest else x ∷ y ∷ ys

  abbrev pub sort_by : List A → List A
  sort_by [] = []
  sort_by (x ∷ xs) = insert_sorted x (sort_by xs)

  -- No element is less than one before it.
  abbrev pub IsSortedBy : List A → Type ℓ
  IsSortedBy [] = Unit
  IsSortedBy (x ∷ xs) = All (λ y. less y x ≡ false) xs × IsSortedBy xs

  -- What std::sort asks of a comparison.
  pub record IsOrder : Type ℓ where
    pub less_asymm : (x y : A) → less y x ≡ true → less x y ≡ false
    pub less_trans : (x y z : A) → less y x ≡ false → less z y ≡ false → less z x ≡ false

  insert_sorted-perm : (x : A) (l : List A) → Perm (insert_sorted x l) (x ∷ l)
  insert_sorted-perm x [] = Perm.rfl
  insert_sorted-perm x (y ∷ ys) = elim (Bool-cases (less y x)) [
    | inl after ↦ rw after (Perm.trans (Perm.cons y (insert_sorted-perm x ys)) (Perm.swap x y ys))
    | inr before ↦ rw before Perm.rfl
  ]

  pub sort_by-perm : (l : List A) → Perm (sort_by l) l
  sort_by-perm [] = Perm.rfl
  sort_by-perm (x ∷ xs) =
      Perm.trans (insert_sorted-perm x (sort_by xs)) (Perm.cons x (sort_by-perm xs))

  All-insert_sorted {κ} :
      (P : A → Type κ) (x : A) (l : List A) → P x → All P l → All P (insert_sorted x l)
  All-insert_sorted P x [] h k = (h, tt)
  All-insert_sorted P x (y ∷ ys) h k = elim (Bool-cases (less y x)) [
    | inl after ↦ rw after (k.0, All-insert_sorted P x ys h k.1)
    | inr before ↦ rw before (h, k)
  ]

  insert_sorted-IsSortedBy :
      IsOrder → (x : A) (l : List A) → IsSortedBy l → IsSortedBy (insert_sorted x l)
  insert_sorted-IsSortedBy o x [] h = (tt, tt)
  insert_sorted-IsSortedBy o x (y ∷ ys) h = elim (Bool-cases (less y x)) [
    | inl after ↦
        rw after (
          All-insert_sorted _ x ys (o.less_asymm x y after) h.0,
          insert_sorted-IsSortedBy o x ys h.1,
        )
    | inr before ↦ rw before ((before, All-mono _ _ ys (λ z k. o.less_trans x y z before k) h.0), h)
  ]

  pub sort_by-IsSortedBy : IsOrder → (l : List A) → IsSortedBy (sort_by l)
  sort_by-IsSortedBy o [] = tt
  sort_by-IsSortedBy o (x ∷ xs) =
      insert_sorted-IsSortedBy o x (sort_by xs) (sort_by-IsSortedBy o xs)

  pub All-sort_by {κ} : (P : A → Type κ) (l : List A) → All P l → All P (sort_by l)
  All-sort_by P [] h = tt
  All-sort_by P (x ∷ xs) h = All-insert_sorted P x (sort_by xs) h.0 (All-sort_by P xs h.1)

  pub any_of-insert_sorted :
      (p : A → Bool) (x : A) (l : List A) → any_of p (insert_sorted x l) ≡ (p x || any_of p l)
  any_of-insert_sorted p x [] = refl
  any_of-insert_sorted p x (y ∷ ys) = elim (Bool-cases (less y x)) [
    | inl after ↦
        rw after
          (ap (λ b. p y || b) (any_of-insert_sorted p x ys) ∙ or_swap (p y) (p x) (any_of p ys))
    | inr before ↦ rw before refl
  ]

  pub any_of-sort_by : (p : A → Bool) (l : List A) → any_of p (sort_by l) ≡ any_of p l
  any_of-sort_by p [] = refl
  any_of-sort_by p (x ∷ xs) =
      any_of-insert_sorted p x (sort_by xs) ∙ ap (λ b. p x || b) (any_of-sort_by p xs)
