-- ===== src/Vibrator/Capabilities.antt =====
-- interfaces/vibrator/mainline/Vibrator.cpp: the capabilities, and the calls that they allow.
use android_hardware_mainlin.Prelude.{
  ℕ, bit_and, bit_or, Bool, false, not, ◌||◌, Option, none, some, leb, ◌==◌, if◌then◌else◌, is_some,
  ℤ, pos, ltb_ℤ, nat_key, bytes_key,
}
use android_hardware_mainlin.Vibrator.State.{
  EffectStrength, FloatOps, Device, CapBits, ok, unsupported_operation, illegal_argument,
  illegal_state, service_specific_error, Vibrator, Reply, reply,
}
use android_hardware_mainlin.Vibrator.Device.{
  f_one, get_amplitude_for_strength, stop_effect, upload_effect, play_effect,
}
use android_hardware_mainlin.Vibrator.Requests.{
  error_invalid_duration, is_strength, dispatch_vibrate,
}

abbrev pub with_bit : Bool → ℕ → ℕ → ℕ
with_bit flag bit capabilities = if flag then bit_or capabilities bit else capabilities

-- getCapabilities: they are computed once; no interface version is an error.
unfoldable pub get_capabilities : FloatOps → CapBits → Option ℕ → Vibrator → Vibrator × Option ℕ
get_capabilities ops bits version v =
    if not (v.capabilities == 0) then (v, some v.capabilities) else elim version [
      | none ↦ (v, none)
      | some number ↦
          let base =
            bit_or
              (bit_or
                (bit_or (bit_or bits.on_callback bits.perform_callback) bits.amplitude_control)
                bits.compose_effects)
              bits.always_on_control in
          let capabilities = with_bit (leb 3 number) bits.perform_vendor_effects (
            with_bit (ops.is_positive v.q_factor) bits.get_q_factor
              (with_bit (ops.is_positive v.resonant_frequency) bits.get_resonant_frequency base)) in
          (record v { capabilities = capabilities }, some capabilities)
    ]

unfoldable pub has_capability : Option ℕ → ℕ → Bool
has_capability none bit = false
has_capability (some capabilities) bit = not (bit_and capabilities bit == 0)

unfoldable pub vendor_amplitude : FloatOps → EffectStrength → ℕ → ℕ → ℕ
unfolding get_amplitude_for_strength
vendor_amplitude ops strength scale vendor_scale =
    let amplitude = get_amplitude_for_strength strength in
    let scaled = if ops.is_positive scale then ops.times amplitude scale else amplitude in
    let twice = if ops.is_positive vendor_scale then ops.times scaled vendor_scale else scaled in
    if ops.above_one twice then f_one else twice

-- performVendorEffect; `duration` is DURATION_MS of the vendor data.
unfoldable pub perform_vendor_effect :
    FloatOps
    → Device
    → CapBits
    → Option ℕ
    → Vibrator
    → EffectStrength
    → (scale vendor_scale : ℕ) → Option ℤ
    → Option ℕ
    → Reply
unfolding get_capabilities has_capability is_strength upload_effect play_effect dispatch_vibrate
    vendor_amplitude
perform_vendor_effect ops device bits version v strength scale vendor_scale duration callback =
    let known = get_capabilities ops bits version v in
    if not (is_some known.1)
    then reply known.0 illegal_state
    else if not (has_capability known.1 bits.perform_vendor_effects)
    then reply known.0 unsupported_operation
    else if not (is_strength strength) || ops.is_negative scale || ops.is_negative vendor_scale
    then reply known.0 illegal_argument
    else elim duration [
      | none ↦ reply known.0 (service_specific_error error_invalid_duration)
      | some duration_ms ↦
          let uploaded =
            upload_effect ops device known.0 duration_ms
              (vendor_amplitude ops strength scale vendor_scale) in
          if not (ltb_ℤ (pos 0) duration_ms)
          then reply known.0 (service_specific_error error_invalid_duration)
          else dispatch_vibrate (play_effect uploaded.0) duration_ms callback ok
    ]

unfoldable pub set_amplitude : FloatOps → CapBits → Option ℕ → Vibrator → ℕ → Reply
unfolding get_capabilities has_capability
set_amplitude ops bits version v amplitude =
    let known = get_capabilities ops bits version v in
    let needed =
      if v.external_control_enabled
      then bits.external_amplitude_control
      else bits.amplitude_control in
    if ops.at_most_zero amplitude || ops.above_one amplitude
    then reply v illegal_argument
    else if not (is_some known.1)
    then reply known.0 illegal_state
    else if not (has_capability known.1 needed)
    then reply known.0 unsupported_operation
    else reply (record known.0 { current_amplitude = amplitude }) ok

unfoldable pub set_external_control : FloatOps → CapBits → Option ℕ → Vibrator → Bool → Reply
unfolding get_capabilities has_capability stop_effect
set_external_control ops bits version v enabled =
    let known = get_capabilities ops bits version v in
    if not (is_some known.1)
    then reply known.0 illegal_state
    else if not (has_capability known.1 bits.external_control)
    then reply known.0 unsupported_operation
    else reply
        (record (if enabled then known.0 else stop_effect known.0) {
          external_control_enabled = enabled;
        })
        ok
