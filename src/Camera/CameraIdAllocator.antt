-- ===== src/Camera/CameraIdAllocator.antt =====
-- interfaces/camera/mainline/provider/CameraIdAllocator.cpp and CameraIdAllocator.h. Ids are ints from 0
-- on; the loop that looks for a free id has as many rounds as ids are in use, which is enough.
use android_hardware_mainlin.Prelude.{
  ℕ, zero, suc, ◌+◌, ◌-◌, ◌*◌, ◌/◌, ◌%◌, ◌^◌, ◌≤◌, ◌<◌, bit_and, bit_or, String, ◌≡◌, refl, sym, ap,
  subst, ◌∙◌, ap₂, subst₂, ◌≢◌, ◌↔◌, ◌⊎◌, inl, inr, Bool, true, false, not, ◌&&◌, ◌||◌, Option,
  none, some, List, [], ◌∷◌, ◌++◌, map, append-nil, append_assoc, arith, ltb, leb, ◌==◌,
  if◌then◌else◌, ==_iff, ==_refl, Bool-cases, Option-cases, is_some, get_or_else, length,
  length-append, get_elem?, is_empty, any_of, find_if, All, All-append, All-mono, ℤ, pos, negsuc,
  pos_part, neg_part, sub_ℕ, ◌+ℤ◌, ◌-ℤ◌, ◌*ℤ◌, ◌≤ℤ◌, ◌<ℤ◌, ltb_ℤ, ◌==ℤ◌, ==ℤ_iff, min_ℤ, Bytes,
  codes, bytes_eq, bytes_eq_iff, Key, nat_key, bytes_key, lookup, insert, erase, lookup-insert,
  lookup-erase, contains, AndroidBase, SplitsAtEach, ◌>>=◌, ◌>>◌, guard, bit_and-mask, bit_and-flag,
  bit_or-high_low, bit_or-low_high, pow-pos, two_pow-suc, two_pow-add, mod_unique, sort_by,
  IsSortedBy, IsOrder, sort_by-perm, sort_by-IsSortedBy, All-sort_by, OnSome, OnSome-mono, Holds,
  >>=-Holds, guard-Holds, Holds-some, OnSome-some,
}
pub mod FirstFree
pub mod Connected
pub mod Erasing
pub mod Tracking

pub record CameraIdAllocator : Type 0 where
  pub external_offset : ℕ
  pub assigned : List (Bytes × ℕ)
  pub in_use : List ℕ

unfoldable pub new_allocator : ℕ → CameraIdAllocator
new_allocator external_offset = record {
  external_offset = external_offset;
  assigned = [];
  in_use = [];
}

-- `in_use_.count(id) != 0`.
unfoldable pub is_used : ℕ → List ℕ → Bool
is_used id in_use = any_of (λ other. other == id) in_use

-- `in_use_.erase(id)`.
unfoldable pub without : ℕ → List ℕ → List ℕ
without id [] = []
without id (other ∷ rest) = let left = without id rest in if other == id then left else other ∷ left

unfoldable pub in_range : CameraIdAllocator → ℕ → Bool → Bool
in_range allocator id internal =
    if internal then ltb id allocator.external_offset else leb allocator.external_offset id

-- `while (in_use_.count(id) != 0) ++id`.
unfoldable pub first_free : ℕ → ℕ → List ℕ → ℕ
unfolding is_used
first_free zero id in_use = id
first_free (suc fuel) id in_use =
    let next = first_free fuel (id + 1) in_use in if is_used id in_use then next else id

-- The id that the key had before, if it can be used again.
unfoldable pub previous_id : CameraIdAllocator → Bytes → Bool → Option ℕ
unfolding in_range is_used
previous_id allocator key internal = do
  previous ← lookup key allocator.assigned
  guard (in_range allocator previous internal && not (is_used previous allocator.in_use))
  some previous

unfoldable pub first_id : CameraIdAllocator → Bool → ℕ
first_id allocator internal = if internal then 0 else allocator.external_offset

unfoldable pub fresh_id : CameraIdAllocator → Bool → ℕ
unfolding first_free first_id
fresh_id allocator internal =
    first_free (length allocator.in_use) (first_id allocator internal) allocator.in_use

-- Allocate: the id and the new state.
unfoldable pub allocate : CameraIdAllocator → Bytes → Bool → ℕ × CameraIdAllocator
unfolding previous_id fresh_id
allocate allocator key internal = elim (previous_id allocator key internal) [
  | some previous ↦ (
    previous,
    record {
      external_offset = allocator.external_offset;
      assigned = allocator.assigned;
      in_use = previous ∷ allocator.in_use;
    },
  )
  | none ↦ (
    fresh_id allocator internal,
    record {
      external_offset = allocator.external_offset;
      assigned = insert key (fresh_id allocator internal) allocator.assigned;
      in_use = fresh_id allocator internal ∷ allocator.in_use;
    },
  )
]

unfoldable pub release : CameraIdAllocator → Bytes → CameraIdAllocator
unfolding without
release allocator key = elim (lookup key allocator.assigned) [
  | none ↦ allocator
  | some id ↦ record {
    external_offset = allocator.external_offset;
    assigned = allocator.assigned;
    in_use = without id allocator.in_use;
  }
]
