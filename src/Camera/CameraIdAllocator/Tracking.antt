-- ===== src/Camera/CameraIdAllocator/Tracking.antt =====
-- interfaces/camera/mainline/provider/CameraIdAllocator.cpp: Allocate and Release over a run.
use android_hardware_mainlin.Prelude.{
  ℕ, ◌≡◌, refl, sym, ap, subst, ◌∙◌, inl, inr, Bool, true, false, not, ◌&&◌, ◌||◌, none, some, [],
  ◌∷◌, arith, ◌==◌, Bool-cases, Option-cases, All, Bytes, bytes_eq, bytes_eq_iff, nat_key,
  bytes_key, lookup, insert, erase, lookup-insert, OnSome-some,
}
use android_hardware_mainlin.Camera.CameraIdAllocator.{
  CameraIdAllocator, new_allocator, is_used, without, in_range, fresh_id, previous_id, allocate,
  release,
}
use android_hardware_mainlin.Camera.CameraIdAllocator.Connected.{
  Cameras, IsRun, start, allocated, released, Tracks, IsRightId, allocate-IsRightId,
  previous_id-IsRightId,
}
use android_hardware_mainlin.Camera.CameraIdAllocator.Erasing.{
  absent-differs, without-used, erase-holds_id, erase-KeysDiffer, All-erase, erase-IdsDiffer,
}

allocate_unknown :
    (allocator : CameraIdAllocator) (key : Bytes) (internal : Bool)
    → previous_id allocator key internal ≡ none
    → allocate allocator key internal ≡ (
      fresh_id allocator internal,
      record {
        external_offset = allocator.external_offset;
        assigned = insert key (fresh_id allocator internal) allocator.assigned;
        in_use = fresh_id allocator internal ∷ allocator.in_use;
      },
    )
unfolding allocate
allocate_unknown allocator key internal e = rw (e, allocate) refl

allocate_known :
    (allocator : CameraIdAllocator) (key : Bytes) (internal : Bool) (id : ℕ)
    → previous_id allocator key internal ≡ some id
    → allocate allocator key internal ≡ (
      id,
      record {
        external_offset = allocator.external_offset;
        assigned = allocator.assigned;
        in_use = id ∷ allocator.in_use;
      },
    )
unfolding allocate
allocate_known allocator key internal id e = rw (e, allocate) refl

-- What is assigned to other keys stays.
insert-assigned :
    (key : Bytes) (id : ℕ) (assigned cameras : Cameras)
    → All (λ camera. bytes_eq key camera.0 ≡ false) cameras
    → All (λ camera. lookup camera.0 assigned ≡ some camera.1) cameras
    → All (λ camera. lookup camera.0 (insert key id assigned) ≡ some camera.1) cameras
insert-assigned key id assigned [] h k = tt
insert-assigned key id assigned (camera ∷ rest) h k = (
  lookup-insert key camera.0 id assigned ∙ rw h.0 k.0,
  insert-assigned key id assigned rest h.1 k.1,
)

abbrev AssignsAll : Bytes → Cameras → ℕ × CameraIdAllocator → Type 0
AssignsAll key cameras result =
    All (λ camera. lookup camera.0 result.1.assigned ≡ some camera.1) ((key, result.0) ∷ cameras)

allocate-assigned :
    (allocator : CameraIdAllocator) (key : Bytes) (internal : Bool) (cameras : Cameras)
    → lookup key cameras ≡ none
    → All (λ camera. lookup camera.0 allocator.assigned ≡ some camera.1) cameras
    → AssignsAll key cameras (allocate allocator key internal)
allocate-assigned allocator key internal cameras absent h =
    elim (Option-cases (previous_id allocator key internal)) [
      | inl unknown ↦
          subst (AssignsAll key cameras) (sym (allocate_unknown allocator key internal unknown)) (
            lookup-insert key key (fresh_id allocator internal) allocator.assigned
                ∙ rw ((bytes_eq_iff key key).1 refl) refl,
            insert-assigned key (fresh_id allocator internal) allocator.assigned cameras
                (absent-differs key cameras absent) h,
          )
      | inr (id, known) ↦
          subst (AssignsAll key cameras) (sym (allocate_known allocator key internal id known)) (
            (OnSome-some
                (λ i. IsRightId allocator internal i × (lookup key allocator.assigned ≡ some i)) id
                (previous_id-IsRightId allocator key internal) known).1,
            h,
          )
    ]

allocate-in_use :
    (allocator : CameraIdAllocator) (key : Bytes) (internal : Bool)
    → (allocate allocator key internal).1.in_use
      ≡ (allocate allocator key internal).0 ∷ allocator.in_use
allocate-in_use allocator key internal = elim (Option-cases (previous_id allocator key internal)) [
  | inl unknown ↦ rw (allocate_unknown allocator key internal unknown) refl
  | inr (id, known) ↦ rw (allocate_known allocator key internal id known) refl
]

allocate-Tracks :
    (allocator : CameraIdAllocator) (cameras : Cameras) (key : Bytes) (internal : Bool)
    → Tracks allocator cameras
    → lookup key cameras ≡ none
    → Tracks
        (allocate allocator key internal).1
        ((key, (allocate allocator key internal).0) ∷ cameras)
unfolding is_used
allocate-Tracks allocator cameras key internal t absent =
    let id = (allocate allocator key internal).0 in
    let right = allocate-IsRightId allocator key internal in
    record {
      assigned_holds = allocate-assigned allocator key internal cameras absent t.assigned_holds;
      used_held = λ i.
          ap (is_used i) (allocate-in_use allocator key internal)
          ∙ ap (λ b. id == i || b) (t.used_held i);
      ids_differ = (sym (t.used_held id) ∙ right.unused, t.ids_differ);
      keys_differ = (absent, t.keys_differ);
    }

lookup-assigned :
    (key : Bytes) (id : ℕ) (assigned cameras : Cameras)
    → lookup key cameras ≡ some id
    → All (λ camera. lookup camera.0 assigned ≡ some camera.1) cameras
    → lookup key assigned ≡ some id
lookup-assigned key id assigned [] e h = absurd (ground arith)
lookup-assigned key id assigned ((k, v) ∷ rest) e h = elim (Bool-cases (bytes_eq k key)) [
  | inl same ↦
      subst (λ j. lookup j assigned ≡ some id) ((bytes_eq_iff k key).0 same) (h.0 ∙ rw same at e)
  | inr other ↦ lookup-assigned key id assigned rest (rw other at e) h.1
]

release-Tracks :
    (allocator : CameraIdAllocator) (cameras : Cameras) (key : Bytes) (id : ℕ)
    → Tracks allocator cameras
    → lookup key cameras ≡ some id
    → Tracks (release allocator key) (erase key cameras)
unfolding release
release-Tracks allocator cameras key id t e =
    let known = lookup-assigned key id allocator.assigned cameras e t.assigned_holds in
    rw (known, release)
      record {
        assigned_holds = All-erase _ key cameras t.assigned_holds;
        used_held = λ i.
            without-used i id allocator.in_use
            ∙ ap (λ b. b && not (i == id)) (t.used_held i)
            ∙ sym (erase-holds_id i key id cameras e t.ids_differ t.keys_differ);
        ids_differ = erase-IdsDiffer key cameras t.ids_differ;
        keys_differ = erase-KeysDiffer key cameras t.keys_differ;
      }

-- Over any run in which a camera is allocated only while it is not connected and released only while
-- it is, the ids of the connected cameras are pairwise different, and the ids in use are exactly
-- theirs.
pub run-Tracks :
    (external_offset : ℕ) (allocator : CameraIdAllocator) (cameras : Cameras)
    → IsRun external_offset allocator cameras
    → Tracks allocator cameras
unfolding new_allocator is_used
run-Tracks external_offset allocator cameras start = record {
  assigned_holds = tt;
  used_held = λ id. refl;
  ids_differ = tt;
  keys_differ = tt;
}
run-Tracks external_offset allocator cameras (allocated before others key internal run absent) =
    allocate-Tracks before others key internal (run-Tracks external_offset before others run) absent
run-Tracks external_offset allocator cameras (released before others key id run present) =
    release-Tracks before others key id (run-Tracks external_offset before others run) present

previous_again :
    (allocator : CameraIdAllocator) (key : Bytes) (internal : Bool) (id : ℕ)
    → lookup key allocator.assigned ≡ some id
    → in_range allocator id internal ≡ true
    → is_used id allocator.in_use ≡ false
    → previous_id allocator key internal ≡ some id
unfolding previous_id
previous_again allocator key internal id known ranged free = rw (known, ranged, free) refl

-- A camera that is unplugged and comes back next gets the id it had, if that is in the range of its
-- kind.
pub allocate-release :
    (external_offset : ℕ) (allocator : CameraIdAllocator) (cameras : Cameras) (key : Bytes)
    (internal : Bool) (id : ℕ)
    → IsRun external_offset allocator cameras
    → lookup key cameras ≡ some id
    → in_range allocator id internal ≡ true
    → (allocate (release allocator key) key internal).0 ≡ id
unfolding release in_range
allocate-release external_offset allocator cameras key internal id run present ranged =
    let t = run-Tracks external_offset allocator cameras run in
    let known = lookup-assigned key id allocator.assigned cameras present t.assigned_holds in
    let free : is_used id (without id allocator.in_use) ≡ false =
      without-used id id allocator.in_use ∙ ground arith in
    rw (known, release)
      (ap (λ r. r.0)
        (allocate_known
          (record {
            external_offset = allocator.external_offset;
            assigned = allocator.assigned;
            in_use = without id allocator.in_use;
          })
          key internal id
          (previous_again
            (record {
              external_offset = allocator.external_offset;
              assigned = allocator.assigned;
              in_use = without id allocator.in_use;
            })
            key internal id known ranged free)))
