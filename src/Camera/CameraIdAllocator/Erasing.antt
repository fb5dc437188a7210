-- ===== src/Camera/CameraIdAllocator/Erasing.antt =====
-- interfaces/camera/mainline/provider/CameraIdAllocator.cpp: lists of connected cameras.
use android_hardware_mainlin.Prelude.{
  ℕ, ◌≡◌, refl, sym, ap, subst, ◌∙◌, ◌≢◌, inl, inr, Bool, true, false, not, ◌&&◌, ◌||◌, Option,
  none, some, List, [], ◌∷◌, arith, ◌==◌, if◌then◌else◌, ==_iff, Bool-cases, All, Bytes, bytes_eq,
  bytes_eq_iff, nat_key, bytes_key, lookup, erase, lookup-erase,
}
use mathlib.Core.Bool.{false≢true}
use android_hardware_mainlin.Camera.CameraIdAllocator.{is_used, without}
use android_hardware_mainlin.Camera.CameraIdAllocator.Connected.{
  Cameras, holds_id, IdsDiffer, KeysDiffer,
}

-- The key of a new camera is the key of no connected one.
pub absent-differs :
    (key : Bytes) (cameras : Cameras)
    → lookup key cameras ≡ none
    → All (λ camera. bytes_eq key camera.0 ≡ false) cameras
absent-differs key [] h = tt
absent-differs key ((k, id) ∷ rest) h = elim (Bool-cases (bytes_eq k key)) [
  | inl same ↦ absurd (ground (arith, rw same at h))
  | inr other ↦ (
    ground (arith, other, bytes_eq_iff k key, bytes_eq_iff key k),
    absent-differs key rest (rw other at h),
  )
]

pub without-used :
    (i id : ℕ) (ids : List ℕ) → is_used i (without id ids) ≡ (is_used i ids && not (i == id))
unfolding is_used without
without-used i id [] = refl
without-used i id (other ∷ rest) = elim (Bool-cases (other == id)) [
  | inl same ↦ rw same ground (arith, without-used i id rest, same)
  | inr different ↦ rw different ground (arith, without-used i id rest, different)
]

pub erase-absent :
    (key : Bytes) (cameras : Cameras) → lookup key cameras ≡ none → erase key cameras ≡ cameras
erase-absent key [] h = refl
erase-absent key ((k, id) ∷ rest) h = elim (Bool-cases (bytes_eq k key)) [
  | inl same ↦ absurd (ground (arith, rw same at h))
  | inr other ↦ rw other (ap (◌∷◌ (k, id)) (erase-absent key rest (rw other at h)))
]

pub lookup-holds_id :
    (key : Bytes) (cameras : Cameras) (id : ℕ)
    → lookup key cameras ≡ some id
    → holds_id id cameras ≡ true
lookup-holds_id key [] id h = absurd (ground arith)
lookup-holds_id key ((k, i) ∷ rest) id h = elim (Bool-cases (bytes_eq k key)) [
  | inl same ↦ ground (arith, rw same at h)
  | inr other ↦ let more = lookup-holds_id key rest id (rw other at h) in ground (arith, more)
]

pub head_id :
    (i v : ℕ) (cameras : Cameras)
    → holds_id v cameras ≡ false
    → ((v == i || holds_id i cameras) && not (i == v)) ≡ holds_id i cameras
head_id i v cameras h = elim (Bool-cases (v == i)) [
  | inl same ↦
      let e : v ≡ i = (==_iff v i).0 same in
      let none_held : holds_id i cameras ≡ false = subst (λ j. holds_id j cameras ≡ false) e h in
      ground (arith, none_held, e)
  | inr different ↦ ground (arith, different)
]

pub tail_id :
    (i v id : ℕ) (held : Bool)
    → v ≢ id
    → (v == i || (held && not (i == id))) ≡ ((v == i || held) && not (i == id))
tail_id i v id held h = ground arith

pub erase-holds_id :
    (i : ℕ) (key : Bytes) (id : ℕ) (cameras : Cameras)
    → lookup key cameras ≡ some id
    → IdsDiffer cameras
    → KeysDiffer cameras
    → holds_id i (erase key cameras) ≡ (holds_id i cameras && not (i == id))
erase-holds_id i key id [] h differ keys = absurd (ground arith)
erase-holds_id i key id ((k, v) ∷ rest) h differ keys = elim (Bool-cases (bytes_eq k key)) [
  | inl same ↦
      let e : k ≡ key = (bytes_eq_iff k key).0 same in
      let v_id : v ≡ id = ground (arith, rw same at h) in
      let absent : lookup key rest ≡ none = subst (λ j. lookup j rest ≡ none) e keys.0 in
      rw same (
        ap (holds_id i) (erase-absent key rest absent)
        ∙ sym (
            subst (λ j. ((v == i || holds_id i rest) && not (i == j)) ≡ holds_id i rest) v_id
              (head_id i v rest differ.0)))
  | inr other ↦
      let later = rw other at h in
      let held = lookup-holds_id key rest id later in
      let apart : v ≢ id = λ e. false≢true (sym differ.0 ∙ ap (λ j. holds_id j rest) e ∙ held) in
      rw other (
        ap (λ b. v == i || b) (erase-holds_id i key id rest later differ.1 keys.1)
        ∙ tail_id i v id (holds_id i rest) apart)
]

pub erase-unheld :
    (i : ℕ) (key : Bytes) (cameras : Cameras)
    → holds_id i cameras ≡ false
    → holds_id i (erase key cameras) ≡ false
erase-unheld i key [] h = refl
erase-unheld i key ((k, v) ∷ rest) h = elim (Bool-cases (bytes_eq k key)) [
  | inl same ↦ rw same (erase-unheld i key rest (ground (arith, h)))
  | inr other ↦
      let more = erase-unheld i key rest (ground (arith, h)) in rw other ground (arith, h, more)
]

pub if_none : (b : Bool) (o : Option ℕ) → o ≡ none → (if b then none else o) ≡ none
if_none true o h = refl
if_none false o h = h

pub erase-KeysDiffer :
    (key : Bytes) (cameras : Cameras) → KeysDiffer cameras → KeysDiffer (erase key cameras)
erase-KeysDiffer key [] h = tt
erase-KeysDiffer key ((k, v) ∷ rest) h = elim (Bool-cases (bytes_eq k key)) [
  | inl same ↦ rw same (erase-KeysDiffer key rest h.1)
  | inr other ↦ rw other (
    lookup-erase key k rest ∙ if_none (bytes_eq key k) (lookup k rest) h.0,
    erase-KeysDiffer key rest h.1,
  )
]

pub All-erase {κ} :
    (P : Bytes × ℕ → Type κ) (key : Bytes) (cameras : Cameras)
    → All P cameras
    → All P (erase key cameras)
All-erase P key [] h = tt
All-erase P key ((k, v) ∷ rest) h = elim (Bool-cases (bytes_eq k key)) [
  | inl same ↦ rw same (All-erase P key rest h.1)
  | inr other ↦ rw other (h.0, All-erase P key rest h.1)
]

pub erase-IdsDiffer :
    (key : Bytes) (cameras : Cameras) → IdsDiffer cameras → IdsDiffer (erase key cameras)
erase-IdsDiffer key [] h = tt
erase-IdsDiffer key ((k, v) ∷ rest) h = elim (Bool-cases (bytes_eq k key)) [
  | inl same ↦ rw same (erase-IdsDiffer key rest h.1)
  | inr other ↦ rw other (erase-unheld v key rest h.0, erase-IdsDiffer key rest h.1)
]
