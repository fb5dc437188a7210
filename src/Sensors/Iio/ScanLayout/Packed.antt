-- ===== src/Sensors/Iio/ScanLayout/Packed.antt =====
-- interfaces/sensors/mainline/backends/iio/IioChannel.cpp: what ComputeScanLayout guarantees.
use android_hardware_mainlin.Prelude.{
  ℕ, ◌+◌, ◌%◌, ◌≤◌, ◌<◌, ◌≡◌, ◌⊎◌, inl, inr, true, false, List, [], ◌∷◌, map, arith, ◌==◌,
  Bool-cases, All, All-mono, ltb_ℤ, nat_key, bytes_key, sort_by, IsSortedBy, IsOrder, sort_by-perm,
  sort_by-IsSortedBy,
}
use android_hardware_mainlin.Sensors.Iio.ScanLayout.{
  IioChannel, comes_before, place, compute_scan_layout, at_location,
}
use mathlib.Core.List.{Perm}
use mathlib.Core.List.Perm
use android_hardware_mainlin.Sensors.Iio.ScanLayout.Placing.{
  All-place, IsPackedFrom, align-lower, align-multiple, align-upper, bytes_of, has_length,
  place-IsPackedFrom, place-channels, place-end, place-largest, place-largest_attained,
}

comes_before-IsOrder : IsOrder comes_before
unfolding comes_before
comes_before-IsOrder = record {
  less_asymm = λ x y h. ground arith;
  less_trans = λ x y z h k. ground arith;
}

place-IsSortedBy :
    (channels : List IioChannel) (bytes largest : ℕ)
    → IsSortedBy comes_before channels
    → IsSortedBy comes_before (place bytes largest channels).channels
unfolding place comes_before
place-IsSortedBy [] bytes largest h = tt
place-IsSortedBy (channel ∷ rest) bytes largest h = elim (Bool-cases (bytes_of channel == 0)) [
  | inl no_bytes ↦
      rw no_bytes
        (All-place _ (λ l c k. k) rest bytes largest h.0, place-IsSortedBy rest bytes largest h.1)
  | inr some_bytes ↦
      rw some_bytes (All-place _ (λ l c k. k) rest _ _ h.0, place-IsSortedBy rest _ _ h.1)
]

-- The order that is asked for: no other channel comes after a timestamp, and of two channels that are
-- both timestamps, or both none, the one with the smaller index comes first.
abbrev pub InOrder : IioChannel → IioChannel → Type 0
InOrder c d =
    ((c.is_timestamp ≡ true) → (d.is_timestamp ≡ true))
    × ((c.is_timestamp ≡ d.is_timestamp) → ltb_ℤ d.scan_index c.scan_index ≡ false)

abbrev pub AllInOrder : List IioChannel → Type 0
AllInOrder [] = Unit
AllInOrder (c ∷ rest) = All (InOrder c) rest × AllInOrder rest

not_before-InOrder : (c d : IioChannel) → comes_before d c ≡ false → InOrder c d
unfolding comes_before
not_before-InOrder c d h = (λ late. ground arith, λ same. ground arith)

IsSortedBy-AllInOrder :
    (channels : List IioChannel) → IsSortedBy comes_before channels → AllInOrder channels
IsSortedBy-AllInOrder [] h = tt
IsSortedBy-AllInOrder (c ∷ rest) h =
    (All-mono _ _ rest (not_before-InOrder c) h.0, IsSortedBy-AllInOrder rest h.1)

-- What the kernel's iio_compute_scan_bytes asks of the channels of a scan and of its size.
pub record IsLayout (channels : List IioChannel) (result : List IioChannel × ℕ) : Type 0 where
  pub ordered : AllInOrder result.0
  pub same_channels : Perm (map (at_location 0) result.0) (map (at_location 0) channels)
  pub packed : IsPackedFrom 0 result.0 result.1
  -- The longest length of a channel, or 1.
  pub largest : ℕ
  pub none_larger : All (λ c. bytes_of c ≤ largest) result.0
  pub attained : (largest ≡ 1) ⊎ (has_length largest result.0 ≡ true)
  pub padded : (0 < largest) × (result.1 % largest ≡ 0)
  pub tight : (end : ℕ) → IsPackedFrom 0 result.0 end → result.1 < end + largest

-- ComputeScanLayout sorts the channels it is given, the timestamps last and the others by scan index,
-- and changes nothing but locations. Each channel with bytes gets the first multiple of its length
-- that the channels before it leave free, so no two overlap and all lie inside the size that is
-- returned. That size is the smallest with room for all which is a multiple of the longest length, or
-- of 1 if no channel has bytes.
pub compute_scan_layout-IsLayout :
    (channels : List IioChannel) → IsLayout channels (compute_scan_layout channels)
unfolding compute_scan_layout
compute_scan_layout-IsLayout channels =
    let sorted = sort_by comes_before channels in
    let placed = place 0 1 sorted in
    let larger = place-largest sorted 0 1 placed.largest (omega arith) in
    record {
      ordered = IsSortedBy-AllInOrder placed.channels (
          place-IsSortedBy sorted 0 1
            (sort_by-IsSortedBy comes_before comes_before-IsOrder channels));
      same_channels =
          rw (place-channels sorted 0 1)
            (Perm.map (at_location 0) (sort_by-perm comes_before channels));
      packed = place-IsPackedFrom sorted 0 1 _ (align-lower placed.bytes placed.largest);
      largest = placed.largest;
      none_larger = All-place _ (λ l c h. h) sorted 0 1 larger.1;
      attained = place-largest_attained sorted 0 1;
      padded = (larger.0, align-multiple placed.bytes placed.largest larger.0);
      tight = λ end room.
          omega (
            arith,
            align-upper placed.bytes placed.largest larger.0,
            place-end sorted 0 1 end room,
          );
    }
