-- ===== src/Vibrator/Device.antt =====
-- interfaces/vibrator/mainline/Vibrator.cpp: the effects on the input device.
use android_hardware_mainlin.Prelude.{
  ℕ, ◌-◌, ◌%◌, ◌^◌, Bool, true, false, not, ◌||◌, Option, none, some, [], ◌∷◌, ◌++◌, if◌then◌else◌,
  length, ℤ, pos, negsuc, pos_part, ltb_ℤ, min_ℤ, nat_key, bytes_key,
}
use android_hardware_mainlin.Vibrator.State.{
  Effect, click, double_click, tick, thud, pop, heavy_click, texture_tick, ringtone, other_effect,
  EffectStrength, light_strength, medium_strength, strong_strength, other_strength,
  CompositePrimitive, noop, click_primitive, thud_primitive, spin, quick_rise, slow_rise,
  quick_fall, light_tick, low_tick, other_primitive, FloatOps, Device, Durations, Vibrator,
  upload_command, play_command, stop_command, erase_command,
}

abbrev pub f_one : ℕ
f_one = 0x3f800000

-- UINT16_MAX.
abbrev pub uint16_max : ℕ
uint16_max = 0xffff

-- static_cast<uint16_t> of an int32_t.
unfoldable pub to_uint16 : ℤ → ℕ
to_uint16 (pos n) = n % 2 ^ 16
to_uint16 (negsuc n) = 2 ^ 16 - 1 - n % 2 ^ 16

unfoldable pub amplitude_to_magnitude : FloatOps → ℕ → ℕ
amplitude_to_magnitude ops amplitude =
    if ops.at_most_zero amplitude
    then 0
    else ops.to_uint16 (if ops.above_one amplitude then f_one else amplitude)

-- 0.33f, 0.67f, 1.0f and 0.5f.
unfoldable pub get_amplitude_for_strength : EffectStrength → ℕ
get_amplitude_for_strength light_strength = 0x3ea8f5c3
get_amplitude_for_strength medium_strength = 0x3f2b851f
get_amplitude_for_strength strong_strength = f_one
get_amplitude_for_strength (other_strength n) = 0x3f000000

unfoldable pub get_effect_duration_ms : Durations → Effect → ℤ
get_effect_duration_ms durations click = durations.click_ms
get_effect_duration_ms durations double_click = durations.double_click_ms
get_effect_duration_ms durations tick = durations.tick_ms
get_effect_duration_ms durations thud = durations.thud_ms
get_effect_duration_ms durations pop = durations.pop_ms
get_effect_duration_ms durations heavy_click = durations.heavy_click_ms
get_effect_duration_ms durations texture_tick = durations.texture_tick_ms
get_effect_duration_ms durations (ringtone n) = durations.ringtone_ms
get_effect_duration_ms durations (other_effect n) = pos 0

unfoldable pub get_primitive_duration_ms : CompositePrimitive → ℤ
get_primitive_duration_ms noop = pos 0
get_primitive_duration_ms click_primitive = pos 30
get_primitive_duration_ms thud_primitive = pos 50
get_primitive_duration_ms spin = pos 80
get_primitive_duration_ms quick_rise = pos 60
get_primitive_duration_ms slow_rise = pos 100
get_primitive_duration_ms quick_fall = pos 60
get_primitive_duration_ms light_tick = pos 15
get_primitive_duration_ms low_tick = pos 20
get_primitive_duration_ms (other_primitive n) = pos 0

unfoldable pub erase_effect : Vibrator → ℤ → Vibrator
erase_effect v id =
    if v.has_device
    then record v { commands = v.commands ++ erase_command (pos_part id) ∷ [] }
    else v

abbrev pub below_zero : ℤ → Bool
below_zero id = ltb_ℤ id (pos 0)

unfoldable pub stop_effect : Vibrator → Vibrator
unfolding erase_effect to_uint16
stop_effect v =
    let written = record v {
      commands = v.commands ++ stop_command (to_uint16 v.last_effect_id) ∷ [];
    } in
    if not v.has_device || below_zero v.last_effect_id
    then v
    else record (erase_effect written v.last_effect_id) { last_effect_id = negsuc 0 }

-- What EVIOCSFF leaves: the id that the device gave, or an error.
abbrev pub uploaded : Vibrator → ℕ → ℕ → Option ℕ → Vibrator × Bool
uploaded v length magnitude none = (v, false)
uploaded v length magnitude (some id) = (
  record v {
    commands = v.commands ++ upload_command id length magnitude ∷ [];
    last_effect_id = pos id;
  },
  true,
)

-- uploadEffect: without a device, or if the device refuses, no effect is loaded.
unfoldable pub upload_effect : FloatOps → Device → Vibrator → ℤ → ℕ → Vibrator × Bool
unfolding stop_effect amplitude_to_magnitude to_uint16
upload_effect ops device v duration_ms amplitude =
    let magnitude = amplitude_to_magnitude ops amplitude in
    let length = to_uint16 (min_ℤ duration_ms (pos uint16_max)) in
    if not v.has_device
    then (v, false)
    else uploaded (stop_effect v) length magnitude
        (device.upload (stop_effect v).commands length magnitude)

unfoldable pub play_effect : Vibrator → Vibrator
unfolding to_uint16
play_effect v =
    if v.has_device
    then record v { commands = v.commands ++ play_command (to_uint16 v.last_effect_id) ∷ [] }
    else v
