-- ===== src/Sensors/SensorTypes/Clamp.antt =====
-- SensorTypes.cpp: ClampSamplingPeriodNs. The products fit int64_t, since the delays are int32_t.
use android_hardware_mainlin.Prelude.{
  ◌≡◌, ℤ, pos, ◌≤ℤ◌, ◌<ℤ◌, ◌*ℤ◌, ltb_ℤ, ◌&&◌, ◌⊎◌, if◌then◌else◌, arith,
}
use android_hardware_mainlin.Sensors.SensorTypes.Traits.{SensorInfo}

abbrev pub min_ns : SensorInfo → ℤ
min_ns info = info.min_delay_us *ℤ 1000

abbrev pub max_ns : SensorInfo → ℤ
max_ns info = info.max_delay_us *ℤ 1000

unfoldable pub raise_to : ℤ → ℤ → ℤ
raise_to low period = if ltb_ℤ (pos 0) low && ltb_ℤ period low then low else period

unfoldable pub lower_to : ℤ → ℤ → ℤ
lower_to high period = if ltb_ℤ (pos 0) high && ltb_ℤ high period then high else period

unfoldable pub clamp_sampling_period_ns : SensorInfo → ℤ → ℤ
unfolding raise_to lower_to
clamp_sampling_period_ns info period = lower_to (max_ns info) (raise_to (min_ns info) period)

-- The two limits of a sensor, where they are set, are in order.
abbrev pub HasRange : SensorInfo → Type 0
HasRange info = (max_ns info ≤ℤ pos 0) ⊎ (min_ns info ≤ℤ max_ns info)

-- What a period satisfies that respects each limit that is set.
abbrev pub InRange : SensorInfo → ℤ → Type 0
InRange info period =
    (pos 0 <ℤ min_ns info → min_ns info ≤ℤ period) × (pos 0 <ℤ max_ns info → period ≤ℤ max_ns info)

bounds :
    (low high period : ℤ)
    → (high ≤ℤ pos 0) ⊎ (low ≤ℤ high)
    → let p = lower_to high (raise_to low period) in
      (pos 0 <ℤ low → low ≤ℤ p) × (pos 0 <ℤ high → p ≤ℤ high)
unfolding lower_to raise_to
bounds low high period h = (λ l. ground arith, λ g. ground arith)

-- On a sensor whose limits are in order, the result respects both limits.
pub clamp_sampling_period_ns-InRange :
    (info : SensorInfo) (period : ℤ)
    → HasRange info
    → InRange info (clamp_sampling_period_ns info period)
unfolding clamp_sampling_period_ns
clamp_sampling_period_ns-InRange info period h = bounds (min_ns info) (max_ns info) period h

keeps :
    (low high period : ℤ)
    → (pos 0 <ℤ low → low ≤ℤ period)
    → (pos 0 <ℤ high → period ≤ℤ high)
    → lower_to high (raise_to low period) ≡ period
unfolding lower_to raise_to
keeps low high period h k = ground arith

-- A period within the limits is kept as it is.
pub clamp_sampling_period_ns_keeps :
    (info : SensorInfo) (period : ℤ)
    → InRange info period
    → clamp_sampling_period_ns info period ≡ period
unfolding clamp_sampling_period_ns
clamp_sampling_period_ns_keeps info period h = keeps (min_ns info) (max_ns info) period h.0 h.1
