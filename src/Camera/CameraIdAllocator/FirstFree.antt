-- ===== src/Camera/CameraIdAllocator/FirstFree.antt =====
-- interfaces/camera/mainline/provider/CameraIdAllocator.cpp: the loop of Allocate.
use android_hardware_mainlin.Prelude.{
  ℕ, zero, suc, ◌+◌, ◌≤◌, ◌<◌, ◌≡◌, inl, inr, true, false, List, [], ◌∷◌, arith, leb, ◌==◌,
  if◌then◌else◌, ==_iff, Bool-cases, length, nat_key, bytes_key,
}
use android_hardware_mainlin.Camera.CameraIdAllocator.{is_used, first_free}

abbrev count_from : ℕ → List ℕ → ℕ
count_from id [] = 0
count_from id (other ∷ rest) = if leb id other then suc (count_from id rest) else count_from id rest

count_from-length : (id : ℕ) (ids : List ℕ) → count_from id ids ≤ length ids
count_from-length id [] = omega arith
count_from-length id (other ∷ rest) = let more = count_from-length id rest in ground arith

count_from-next : (id : ℕ) (ids : List ℕ) → count_from (id + 1) ids ≤ count_from id ids
count_from-next id [] = omega arith
count_from-next id (other ∷ rest) = let more = count_from-next id rest in ground arith

count_from-used :
    (id : ℕ) (ids : List ℕ) → is_used id ids ≡ true → count_from (id + 1) ids < count_from id ids
unfolding is_used
count_from-used id [] h = absurd (ground arith)
count_from-used id (other ∷ rest) h = elim (Bool-cases (other == id)) [
  | inl same ↦ let more = count_from-next id rest in ground arith
  | inr different ↦ let more = count_from-used id rest (rw different at h) in ground arith
]

first_free-unused :
    (fuel id : ℕ) (ids : List ℕ)
    → count_from id ids ≤ fuel
    → is_used (first_free fuel id ids) ids ≡ false
unfolding first_free
first_free-unused zero id ids h = elim (Bool-cases (is_used id ids)) [
  | inl used ↦ absurd (omega (arith, count_from-used id ids used))
  | inr free ↦ free
]
first_free-unused (suc fuel) id ids h = elim (Bool-cases (is_used id ids)) [
  | inl used ↦
      rw used (first_free-unused fuel (id + 1) ids (omega (arith, count_from-used id ids used)))
  | inr free ↦ rw free free
]

-- The loop ends within as many rounds as ids are in use, at an id that is free.
pub first_free-ends : (id : ℕ) (ids : List ℕ) → is_used (first_free (length ids) id ids) ids ≡ false
first_free-ends id ids = first_free-unused (length ids) id ids (count_from-length id ids)

pub first_free-lower : (fuel id : ℕ) (ids : List ℕ) → id ≤ first_free fuel id ids
unfolding first_free
first_free-lower zero id ids = omega arith
first_free-lower (suc fuel) id ids = let more = first_free-lower fuel (id + 1) ids in ground arith

-- All ids that the loop passes are in use.
pub first_free-passed :
    (fuel id : ℕ) (ids : List ℕ) (other : ℕ)
    → id ≤ other
    → other < first_free fuel id ids
    → is_used other ids ≡ true
unfolding first_free
first_free-passed zero id ids other h k = absurd (omega arith)
first_free-passed (suc fuel) id ids other h k = elim (Bool-cases (is_used id ids)) [
  | inl used ↦ elim (Bool-cases (other == id)) [
    | inl same ↦ rw ((==_iff other id).0 same) used
    | inr later ↦ first_free-passed fuel (id + 1) ids other (ground arith) (rw used at k)
  ]
  | inr free ↦ absurd (omega (arith, rw free at k))
]
