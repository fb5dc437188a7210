-- ===== src/Sensors/Iio/ScanLayout.antt =====
-- interfaces/sensors/mainline/backends/iio/IioChannel.cpp: ComputeScanLayout. Of an IioChannel the
-- fields that it reads and writes. The kernel gives each channel its own scan index, so the sort
-- meets no ties; offsets are far below 2^64 for the few channels of a device.
use android_hardware_mainlin.Prelude.{
  ℕ, zero, suc, ◌+◌, ◌-◌, ◌*◌, ◌/◌, ◌%◌, ◌^◌, ◌≤◌, ◌<◌, bit_and, bit_or, String, ◌≡◌, refl, sym, ap,
  subst, ◌∙◌, ap₂, subst₂, ◌≢◌, ◌↔◌, ◌⊎◌, inl, inr, Bool, true, false, not, ◌&&◌, ◌||◌, Option,
  none, some, List, [], ◌∷◌, ◌++◌, map, append-nil, append_assoc, arith, ltb, leb, ◌==◌,
  if◌then◌else◌, ==_iff, ==_refl, Bool-cases, Option-cases, is_some, get_or_else, length,
  length-append, get_elem?, is_empty, any_of, find_if, All, All-append, All-mono, ℤ, pos, negsuc,
  pos_part, neg_part, sub_ℕ, ◌+ℤ◌, ◌-ℤ◌, ◌*ℤ◌, ◌≤ℤ◌, ◌<ℤ◌, ltb_ℤ, ◌==ℤ◌, ==ℤ_iff, min_ℤ, Bytes,
  codes, bytes_eq, bytes_eq_iff, Key, nat_key, bytes_key, lookup, insert, erase, lookup-insert,
  lookup-erase, contains, AndroidBase, SplitsAtEach, ◌>>=◌, ◌>>◌, guard, bit_and-mask, bit_and-flag,
  bit_or-high_low, bit_or-low_high, pow-pos, two_pow-suc, two_pow-add, mod_unique, sort_by,
  IsSortedBy, IsOrder, sort_by-perm, sort_by-IsSortedBy, All-sort_by, OnSome, OnSome-mono, Holds,
  >>=-Holds, guard-Holds, Holds-some, OnSome-some, mul_ℤ, max_ℤ, insert_sorted,
  any_of-insert_sorted, any_of-sort_by, if_holds,
}
pub mod Placing
pub mod Packed
use android_hardware_mainlin.Sensors.Iio.ScanType.{IioScanType, total_bytes}

pub record IioChannel : Type 0 where
  pub is_timestamp : Bool
  pub scan_index : ℤ
  pub scan_type : IioScanType
  pub location : ℕ

-- The comparison of the sort.
unfoldable pub comes_before : IioChannel → IioChannel → Bool
comes_before a b =
    if a.is_timestamp && not b.is_timestamp || not a.is_timestamp && b.is_timestamp
    then not a.is_timestamp
    else ltb_ℤ a.scan_index b.scan_index

-- `if (bytes % length != 0) bytes += length - (bytes % length)`.
unfoldable pub align : ℕ → ℕ → ℕ
align bytes length = if bytes % length == 0 then bytes else bytes + (length - bytes % length)

abbrev pub at_location : ℕ → IioChannel → IioChannel
at_location location channel = record {
  is_timestamp = channel.is_timestamp;
  scan_index = channel.scan_index;
  scan_type = channel.scan_type;
  location = location;
}

-- The channels with their locations, and the two counters after the loop.
pub record Placed : Type 0 where
  pub channels : List IioChannel
  pub bytes : ℕ
  pub largest : ℕ

abbrev pub with_channel : IioChannel → Placed → Placed
with_channel channel placed = record {
  channels = channel ∷ placed.channels;
  bytes = placed.bytes;
  largest = placed.largest;
}

unfoldable pub place : ℕ → ℕ → List IioChannel → Placed
unfolding align total_bytes
place bytes largest [] = record { channels = []; bytes = bytes; largest = largest }
place bytes largest (channel ∷ rest) =
    let length = total_bytes channel.scan_type in
    let start = align bytes length in
    let skipped = with_channel channel (place bytes largest rest) in
    let placed =
      with_channel (at_location start channel)
        (place (start + length) (if ltb largest length then length else largest) rest) in
    if length == 0 then skipped else placed

unfoldable pub compute_scan_layout : List IioChannel → List IioChannel × ℕ
unfolding place comes_before align
compute_scan_layout channels =
    let placed = place 0 1 (sort_by comes_before channels) in
    (placed.channels, align placed.bytes placed.largest)
