-- ===== src/Camera/StreamPlanner/Best.antt =====
-- interfaces/camera/mainline/device/StreamPlanner.cpp: the comparison of scores, and the loop of Plan
-- that keeps the best mode.
use android_hardware_mainlin.Prelude.{
  ℕ, ◌≡◌, refl, sym, ap, subst, ◌⊎◌, inl, inr, Bool, true, false, not, ◌&&◌, Option, none, some,
  List, [], ◌∷◌, arith, ltb, Bool-cases, get_or_else, All, ℤ, ltb_ℤ, nat_key, bytes_key, IsOrder,
}
use mathlib.Core.List.{Mem, mem-cons_self, mem-cons_of_mem}
use android_hardware_mainlin.Camera.StreamPlanner.{
  PixelFormats, Size, CaptureMode, contains_size, area, score_duration, then_less, better_score,
  improves, best_mode,
}

-- The laws of the order, on what the two comparisons answer.
asymm_of :
    (f g r q : Bool)
    → (f ≡ true → g ≡ false)
    → (g ≡ true → f ≡ false)
    → (r ≡ true → q ≡ false)
    → then_less f g r ≡ true
    → then_less g f q ≡ false
asymm_of true g r q a b c h = rw (a refl) refl
asymm_of false true r q a b c h = absurd (ground (arith, h))
asymm_of false false r q a b c h = c h

-- `yx` says that y is less than x in the first component, `syx` in the others.
trans_of :
    (xy yx yz zy xz zx syx szy szx : Bool)
    → (yx ≡ false → zy ≡ false → zx ≡ false)
    → (zy ≡ false → xz ≡ false → xy ≡ false)
    → (xz ≡ false → yx ≡ false → yz ≡ false)
    → (syx ≡ false → szy ≡ false → szx ≡ false)
    → then_less yx xy syx ≡ false
    → then_less zy yz szy ≡ false
    → then_less zx xz szx ≡ false
trans_of xy true yz zy xz zx syx szy szx a b c d h k = absurd (ground (arith, h))
trans_of xy false yz true xz zx syx szy szx a b c d h k = absurd (ground (arith, k))
trans_of xy false yz false true zx syx szy szx a b c d h k = rw (a refl refl) refl
trans_of true false yz false false zx syx szy szx a b c d h k = absurd (ground (arith, b refl refl))
trans_of false false true false false zx syx szy szx a b c d h k =
    absurd (ground (arith, c refl refl))
trans_of false false false false false zx syx szy szx a b c d h k = rw (a refl refl) (d h k)

module _ {ℓ} {A : Type ℓ} where
  -- A comparison of tuples: the first component decides, then the rest.
  then_less-IsOrder :
      (first rest : A → A → Bool)
      → IsOrder first
      → IsOrder rest
      → IsOrder (λ a b. then_less (first a b) (first b a) (rest a b))
  then_less-IsOrder first rest o p = record {
    less_asymm = λ x y h.
        asymm_of (first y x) (first x y) (rest y x) (rest x y) (o.less_asymm x y) (o.less_asymm y x)
          (p.less_asymm x y) h;
    less_trans = λ x y z h k.
        trans_of (first x y) (first y x) (first y z) (first z y) (first x z) (first z x) (rest y x)
          (rest z y) (rest z x) (o.less_trans x y z) (λ a b. o.less_trans y z x a b)
          (λ a b. o.less_trans z x y a b) (p.less_trans x y z) h k;
  }

  ltb-IsOrder : (f : A → ℕ) → IsOrder (λ a b. ltb (f a) (f b))
  ltb-IsOrder f = record {
    less_asymm = λ x y h. ground arith;
    less_trans = λ x y z h k. ground arith;
  }

  ltb_ℤ-IsOrder : (f : A → ℤ) → IsOrder (λ a b. ltb_ℤ (f a) (f b))
  ltb_ℤ-IsOrder f = record {
    less_asymm = λ x y h. ground arith;
    less_trans = λ x y z h k. ground arith;
  }

  flag-IsOrder : (f : A → Bool) → IsOrder (λ a b. not (f a) && f b)
  flag-IsOrder f = record {
    less_asymm = λ x y h. ground arith;
    less_trans = λ x y z h k. ground arith;
  }

pub better_score-IsOrder : (pixels : PixelFormats) → IsOrder (better_score pixels)
unfolding better_score
better_score-IsOrder pixels = then_less-IsOrder _ _ (ltb-IsOrder score_duration) (
    then_less-IsOrder _ _ (ltb_ℤ-IsOrder (λ m. area m.size)) (
      then_less-IsOrder _ _ (flag-IsOrder (λ m. pixels.is_isp m.fourcc)) (
        then_less-IsOrder _ _ (flag-IsOrder (λ m. pixels.is_compressed m.fourcc))
          (then_less-IsOrder _ _ (flag-IsOrder (λ m. m.emulated)) (ltb-IsOrder (λ m. m.fourcc))))))

module _ (better : CaptureMode → CaptureMode → Bool) (o : IsOrder better) (needed : Size) where
  abbrev NotBetter : CaptureMode → Option CaptureMode → Type 0
  NotBetter m none = Unit
  NotBetter m (some b) = better b m ≡ false

  NotBetter-taken :
      (mode m : CaptureMode) (best : Option CaptureMode)
      → improves better mode best ≡ true
      → better mode m ≡ false
      → NotBetter m best
  NotBetter-taken mode m none h k = tt
  NotBetter-taken mode m (some b) h k = o.less_trans m mode b k (o.less_asymm b mode h)

  NotBetter-passed :
      (mode m : CaptureMode) (best : Option CaptureMode)
      → improves better mode best ≡ false
      → NotBetter m best
      → better mode m ≡ false
  NotBetter-passed mode m none h k = absurd (ground (arith, h))
  NotBetter-passed mode m (some b) h k = o.less_trans m b mode k h

  no_fit :
      (mode : CaptureMode) (best : Option CaptureMode)
      → (contains_size mode.size needed && improves better mode best) ≡ false
      → best ≡ none
      → contains_size mode.size needed ≡ false
  no_fit mode none h e = ground (arith, h)
  no_fit mode (some b) h e = absurd (ground (arith, e))

  not_less_self : (m : CaptureMode) → better m m ≡ false
  not_less_self m = elim (Bool-cases (better m m)) [ inl h ↦ o.less_asymm m m h | inr h ↦ h ]

  source_taken :
      (mode m : CaptureMode) (rest : List CaptureMode)
      → contains_size mode.size needed ≡ true
      → (some mode ≡ some m) ⊎ (Mem m rest × (contains_size m.size needed ≡ true))
      → Mem m (mode ∷ rest) × (contains_size m.size needed ≡ true)
  source_taken mode m rest fits (inl e) =
      let same : mode ≡ m = ap (λ b. get_or_else b mode) e in
      (
        subst (λ b. Mem b (mode ∷ rest)) same mem-cons_self,
        subst (λ b. contains_size b.size needed ≡ true) same fits,
      )
  source_taken mode m rest fits (inr (later, fits_m)) = (mem-cons_of_mem mode later, fits_m)

  source_passed :
      (mode m : CaptureMode) (best : Option CaptureMode) (rest : List CaptureMode)
      → (best ≡ some m) ⊎ (Mem m rest × (contains_size m.size needed ≡ true))
      → (best ≡ some m) ⊎ (Mem m (mode ∷ rest) × (contains_size m.size needed ≡ true))
  source_passed mode m best rest (inl e) = inl e
  source_passed mode m best rest (inr (later, fits)) = inr (mem-cons_of_mem mode later, fits)

  -- The mode that the loop ends with.
  pub record IsBest (best : Option CaptureMode) (modes : List CaptureMode) (m : CaptureMode)
      : Type 0 where
    pub source : (best ≡ some m) ⊎ (Mem m modes × (contains_size m.size needed ≡ true))
    pub before : NotBetter m best
    pub others : All (λ mode. contains_size mode.size needed ≡ true → better mode m ≡ false) modes

  pub best_mode-IsBest :
      (modes : List CaptureMode) (best : Option CaptureMode) (m : CaptureMode)
      → best_mode better needed best modes ≡ some m
      → IsBest best modes m
  unfolding best_mode
  best_mode-IsBest [] best m e = record {
    source = inl e;
    before = subst (NotBetter m) (sym e) (not_less_self m);
    others = tt;
  }
  best_mode-IsBest (mode ∷ rest) best m e =
      elim (Bool-cases (contains_size mode.size needed && improves better mode best)) [
        | inl taken ↦
            let later = best_mode-IsBest rest (some mode) m (rw taken at e) in
            record {
              source = inr (source_taken mode m rest (ground (arith, taken)) later.source);
              before = NotBetter-taken mode m best (ground (arith, taken)) later.before;
              others = ((λ fits. later.before), later.others);
            }
        | inr passed ↦
            let later = best_mode-IsBest rest best m (rw passed at e) in
            record {
              source = source_passed mode m best rest later.source;
              before = later.before;
              others = (
                (λ fits. NotBetter-passed mode m best (rw fits at passed) later.before),
                later.others,
              );
            }
      ]

  pub best_mode-none :
      (modes : List CaptureMode) (best : Option CaptureMode)
      → best_mode better needed best modes ≡ none
      → (best ≡ none) × All (λ mode. contains_size mode.size needed ≡ false) modes
  unfolding best_mode
  best_mode-none [] best e = (e, tt)
  best_mode-none (mode ∷ rest) best e =
      elim (Bool-cases (contains_size mode.size needed && improves better mode best)) [
        | inl taken ↦ absurd (ground (arith, (best_mode-none rest (some mode) (rw taken at e)).0))
        | inr passed ↦
            let later = best_mode-none rest best (rw passed at e) in
            (later.0, (no_fit mode best passed later.0, later.1))
      ]
