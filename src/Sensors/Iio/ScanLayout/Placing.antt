-- ===== src/Sensors/Iio/ScanLayout/Placing.antt =====
-- interfaces/sensors/mainline/backends/iio/IioChannel.cpp: the loop of ComputeScanLayout.
use android_hardware_mainlin.Prelude.{
  ℕ, suc, ◌+◌, ◌-◌, ◌/◌, ◌%◌, ◌≤◌, ◌<◌, ◌≡◌, refl, ap, ◌⊎◌, inl, inr, Bool, true, false, List, [],
  ◌∷◌, map, arith, ltb, ◌==◌, if◌then◌else◌, Bool-cases, length, any_of, All, nat_key, bytes_key,
  mod_unique,
}
use android_hardware_mainlin.Sensors.Iio.ScanType.{total_bytes}
use android_hardware_mainlin.Sensors.Iio.ScanLayout.{IioChannel, align, place, at_location}
use native.Mathlib.Nat.{mod-lt, div-add-mod, mul-suc}

abbrev pub bytes_of : IioChannel → ℕ
bytes_of channel = total_bytes channel.scan_type

-- Each channel with bytes lies at the first multiple of its length that the channels before it leave
-- free, and all end by `end`.
abbrev pub IsPackedFrom : ℕ → List IioChannel → ℕ → Type 0
IsPackedFrom start [] end = start ≤ end
IsPackedFrom start (channel ∷ rest) end =
    if bytes_of channel == 0
    then IsPackedFrom start rest end
    else ((start ≤ channel.location)
        × (channel.location < start + bytes_of channel)
        × (channel.location % bytes_of channel ≡ 0)
        × IsPackedFrom (channel.location + bytes_of channel) rest end)

pub align-lower : (bytes length : ℕ) → bytes ≤ align bytes length
unfolding align
align-lower bytes length = ground arith

pub align-upper : (bytes length : ℕ) → 0 < length → align bytes length < bytes + length
unfolding align
align-upper bytes length h = ground (arith, mod-lt bytes h)

pub align-multiple : (bytes length : ℕ) → 0 < length → align bytes length % length ≡ 0
unfolding align
align-multiple bytes length h = elim (Bool-cases (bytes % length == 0)) [
  | inl whole ↦ rw whole (ground arith)
  | inr part ↦ rw part (
      mod_unique (bytes + (length - bytes % length)) (suc (bytes / length)) 0 length
        (omega (arith, mod-lt bytes h, div-add-mod bytes length, mul-suc length (bytes / length)))
        h)
]

pub place-IsPackedFrom :
    (channels : List IioChannel) (bytes largest : ℕ) (end : ℕ)
    → (place bytes largest channels).bytes ≤ end
    → IsPackedFrom bytes (place bytes largest channels).channels end
unfolding place
place-IsPackedFrom [] bytes largest end h = h
place-IsPackedFrom (channel ∷ rest) bytes largest end h =
    elim (Bool-cases (bytes_of channel == 0)) [
      | inl no_bytes ↦
          rw no_bytes (rw no_bytes (place-IsPackedFrom rest bytes largest end (rw no_bytes at h)))
      | inr some_bytes ↦
          let positive : 0 < bytes_of channel = ground arith in
          rw some_bytes (
            rw some_bytes (
              align-lower bytes (bytes_of channel),
              align-upper bytes (bytes_of channel) positive,
              align-multiple bytes (bytes_of channel) positive,
              place-IsPackedFrom rest (align bytes (bytes_of channel) + bytes_of channel) _ end
                  (rw some_bytes at h),
            ))
    ]

module _ {ℓ} (P : IioChannel → Type ℓ)
    (moved : (l : ℕ) (c : IioChannel) → P c → P (at_location l c)) where
  pub All-place :
      (channels : List IioChannel) (bytes largest : ℕ)
      → All P channels
      → All P (place bytes largest channels).channels
  unfolding place
  All-place [] bytes largest h = tt
  All-place (channel ∷ rest) bytes largest h = elim (Bool-cases (bytes_of channel == 0)) [
    | inl no_bytes ↦ rw no_bytes (h.0, All-place rest bytes largest h.1)
    | inr some_bytes ↦ rw some_bytes (moved _ channel h.0, All-place rest _ _ h.1)
  ]

pub place-channels :
    (channels : List IioChannel) (bytes largest : ℕ)
    → map (at_location 0) (place bytes largest channels).channels ≡ map (at_location 0) channels
unfolding place
place-channels [] bytes largest = refl
place-channels (channel ∷ rest) bytes largest = elim (Bool-cases (bytes_of channel == 0)) [
  | inl no_bytes ↦
      rw no_bytes (ap (◌∷◌ (at_location 0 channel)) (place-channels rest bytes largest))
  | inr some_bytes ↦ rw some_bytes (ap (◌∷◌ (at_location 0 channel)) (place-channels rest _ _))
]

-- The counter after the loop is at least what it was and no less than any length.
pub place-largest :
    (channels : List IioChannel) (bytes largest bound : ℕ)
    → (place bytes largest channels).largest ≤ bound
    → (largest ≤ bound) × All (λ c. bytes_of c ≤ bound) channels
unfolding place
place-largest [] bytes largest bound h = (h, tt)
place-largest (channel ∷ rest) bytes largest bound h = elim (Bool-cases (bytes_of channel == 0)) [
  | inl no_bytes ↦
      let more = place-largest rest bytes largest bound (rw no_bytes at h) in
      (more.0, (ground arith, more.1))
  | inr some_bytes ↦
      let more = place-largest rest _ _ bound (rw some_bytes at h) in
      (ground arith, (ground arith, more.1))
]

-- A channel has this length.
abbrev pub has_length : ℕ → List IioChannel → Bool
has_length length channels = any_of (λ c. bytes_of c == length) channels

attained_now :
    (channel : IioChannel) (largest now : ℕ) (rest : List IioChannel)
    → now ≡ (if ltb largest (bytes_of channel) then bytes_of channel else largest)
    → (now ≡ largest) ⊎ (has_length now (channel ∷ rest) ≡ true)
attained_now channel largest now rest same = elim (Bool-cases (ltb largest (bytes_of channel))) [
  | inl longer ↦ inr (ground arith)
  | inr kept ↦ inl (ground arith)
]

-- It is what it was or the length of a channel.
pub place-largest_attained :
    (channels : List IioChannel) (bytes largest : ℕ)
    → ((place bytes largest channels).largest ≡ largest)
      ⊎ (has_length (place bytes largest channels).largest (place bytes largest channels).channels
          ≡ true)
unfolding place
place-largest_attained [] bytes largest = inl refl
place-largest_attained (channel ∷ rest) bytes largest = elim (Bool-cases (bytes_of channel == 0)) [
  | inl no_bytes ↦ rw no_bytes (elim (place-largest_attained rest bytes largest) [
    | inl same ↦ inl same
    | inr later ↦ inr (ground (arith, later))
  ])
  | inr some_bytes ↦
      let start = align bytes (bytes_of channel) in
      let longer = ltb largest (bytes_of channel) in
      let next = if longer then bytes_of channel else largest in
      rw some_bytes (elim (place-largest_attained rest (start + bytes_of channel) next) [
        | inl same ↦ attained_now channel largest _ _ same
        | inr later ↦ inr (ground (arith, later))
      ])
]

skipped :
    (channel : IioChannel) (rest : List IioChannel) (start end : ℕ)
    → (bytes_of channel == 0) ≡ true
    → IsPackedFrom start (channel ∷ rest) end
    → IsPackedFrom start rest end
skipped channel rest start end no_bytes h = rw no_bytes at h

packed_rest :
    (channel : IioChannel) (rest : List IioChannel) (start end : ℕ)
    → (bytes_of channel == 0) ≡ false
    → IsPackedFrom start (channel ∷ rest) end
    → IsPackedFrom (channel.location + bytes_of channel) rest end
packed_rest channel rest start end some_bytes h =
    let packed : (start ≤ channel.location)
        × (channel.location < start + bytes_of channel)
        × (channel.location % bytes_of channel ≡ 0)
        × IsPackedFrom (channel.location + bytes_of channel) rest end =
      rw some_bytes at h in
    packed.3

-- Any end that leaves room for the channels is no less than the counter of bytes.
pub place-end :
    (channels : List IioChannel) (bytes largest end : ℕ)
    → IsPackedFrom bytes (place bytes largest channels).channels end
    → (place bytes largest channels).bytes ≤ end
unfolding place
place-end [] bytes largest end h = h
place-end (channel ∷ rest) bytes largest end h = elim (Bool-cases (bytes_of channel == 0)) [
  | inl no_bytes ↦ rw no_bytes (
      place-end rest bytes largest end
        (skipped channel (place bytes largest rest).channels bytes end no_bytes (rw no_bytes at h)))
  | inr some_bytes ↦
      let start = align bytes (bytes_of channel) in
      rw some_bytes (
        place-end rest (start + bytes_of channel) _ end (
          packed_rest (at_location start channel)
            (place (start + bytes_of channel)
              (if ltb largest (bytes_of channel) then bytes_of channel else largest) rest).channels
            bytes end some_bytes (rw some_bytes at h)))
]
