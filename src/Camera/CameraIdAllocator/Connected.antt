-- ===== src/Camera/CameraIdAllocator/Connected.antt =====
-- interfaces/camera/mainline/provider/CameraIdAllocator.cpp: the ids of the cameras that are connected.
use android_hardware_mainlin.Prelude.{
  ℕ, ◌<◌, ◌≡◌, refl, ◌⊎◌, inl, inr, Bool, true, false, not, ◌&&◌, none, some, List, [], ◌∷◌, arith,
  ltb, ◌==◌, Bool-cases, Option-cases, length, any_of, All, Bytes, nat_key, bytes_key, lookup,
  erase, OnSome, OnSome-some,
}
use android_hardware_mainlin.Camera.CameraIdAllocator.{
  CameraIdAllocator, new_allocator, is_used, in_range, previous_id, first_id, fresh_id, first_free,
  allocate, release,
}
use android_hardware_mainlin.Camera.CameraIdAllocator.FirstFree.{
  first_free-ends, first_free-lower, first_free-passed,
}

-- The keys of the cameras that are connected, with the ids that Allocate gave them.
abbrev pub Cameras : Type 0
Cameras = List (Bytes × ℕ)

abbrev pub holds_id : ℕ → Cameras → Bool
holds_id id cameras = any_of (λ camera. camera.1 == id) cameras

-- A camera is allocated while it is not connected, and released while it is.
pub data IsRun (external_offset : ℕ) : CameraIdAllocator → Cameras → Type 0 where
  start : IsRun external_offset (new_allocator external_offset) []
  allocated :
      (allocator : CameraIdAllocator) (cameras : Cameras) (key : Bytes) (internal : Bool)
      → IsRun external_offset allocator cameras
      → lookup key cameras ≡ none
      → IsRun external_offset
          (allocate allocator key internal).1
          ((key, (allocate allocator key internal).0) ∷ cameras)
  released :
      (allocator : CameraIdAllocator) (cameras : Cameras) (key : Bytes) (id : ℕ)
      → IsRun external_offset allocator cameras
      → lookup key cameras ≡ some id
      → IsRun external_offset (release allocator key) (erase key cameras)

abbrev pub IdsDiffer : Cameras → Type 0
IdsDiffer [] = Unit
IdsDiffer (camera ∷ rest) = (holds_id camera.1 rest ≡ false) × IdsDiffer rest

abbrev pub KeysDiffer : Cameras → Type 0
KeysDiffer [] = Unit
KeysDiffer (camera ∷ rest) = (lookup camera.0 rest ≡ none) × KeysDiffer rest

-- The state agrees with what is connected.
pub record Tracks (allocator : CameraIdAllocator) (cameras : Cameras) : Type 0 where
  pub assigned_holds : All (λ camera. lookup camera.0 allocator.assigned ≡ some camera.1) cameras
  pub used_held : (id : ℕ) → is_used id allocator.in_use ≡ holds_id id cameras
  pub ids_differ : IdsDiffer cameras
  pub keys_differ : KeysDiffer cameras

-- An id that Allocate gives is free, and in the range of the camera's kind unless all internal ids are
-- taken.
pub record IsRightId (allocator : CameraIdAllocator) (internal : Bool) (id : ℕ) : Type 0 where
  pub unused : is_used id allocator.in_use ≡ false
  pub ranged :
      (in_range allocator id internal ≡ true)
      ⊎ ((internal ≡ true)
          × ((other : ℕ)
              → other < allocator.external_offset
              → is_used other allocator.in_use ≡ true))

fresh_id-IsRightId :
    (allocator : CameraIdAllocator) (internal : Bool)
    → IsRightId allocator internal (fresh_id allocator internal)
unfolding fresh_id first_id in_range
fresh_id-IsRightId allocator true =
    let id = first_free (length allocator.in_use) 0 allocator.in_use in
    record {
      unused = first_free-ends 0 allocator.in_use;
      ranged = elim (Bool-cases (ltb id allocator.external_offset)) [
        | inl inside ↦ inl inside
        | inr outside ↦ inr (
          refl,
          λ other h.
              first_free-passed (length allocator.in_use) 0 allocator.in_use other (omega arith)
                (ground (arith, outside)),
        )
      ];
    }
fresh_id-IsRightId allocator false = record {
  unused = first_free-ends allocator.external_offset allocator.in_use;
  ranged = inl (
      ground (
        arith,
        first_free-lower (length allocator.in_use) allocator.external_offset allocator.in_use,
      ));
}

pub previous_id-IsRightId :
    (allocator : CameraIdAllocator) (key : Bytes) (internal : Bool)
    → OnSome
        (λ id. IsRightId allocator internal id × (lookup key allocator.assigned ≡ some id))
        (previous_id allocator key internal)
unfolding previous_id
previous_id-IsRightId allocator key internal = elim (Option-cases (lookup key allocator.assigned)) [
  | inl unknown ↦ rw unknown tt
  | inr (id, known) ↦
      elim (Bool-cases (in_range allocator id internal && not (is_used id allocator.in_use))) [
        | inl fits ↦
            rw (known, fits)
              (record { unused = ground (arith, fits); ranged = inl (ground (arith, fits)) }, refl)
        | inr taken ↦ rw (known, taken) tt
      ]
]

-- The id that Allocate returns is free. It is in the range of the camera's kind, below
-- external_offset if it is internal and from there on if not, unless the camera is internal and all
-- ids below external_offset are in use.
pub allocate-IsRightId :
    (allocator : CameraIdAllocator) (key : Bytes) (internal : Bool)
    → IsRightId allocator internal (allocate allocator key internal).0
unfolding allocate
allocate-IsRightId allocator key internal =
    elim (Option-cases (previous_id allocator key internal)) [
      | inl unknown ↦ rw (unknown, allocate) (fresh_id-IsRightId allocator internal)
      | inr (id, known) ↦
          rw (known, allocate)
            (OnSome-some
              (λ i. IsRightId allocator internal i × (lookup key allocator.assigned ≡ some i)) id
              (previous_id-IsRightId allocator key internal) known).0
    ]
