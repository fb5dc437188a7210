-- ===== src/Sensors/Iio/SensorSpecs/Backed.antt =====
-- interfaces/sensors/mainline/backends/iio/IioTypes.cpp: MatchIioSensorSpecs.
use android_hardware_mainlin.Prelude.{
  ℕ, ◌≡◌, refl, ◌⊎◌, inl, inr, Bool, true, false, not, ◌&&◌, ◌||◌, Option, none, some, List, [],
  ◌∷◌, ◌++◌, arith, if◌then◌else◌, Bool-cases, Option-cases, All, All-append, ℤ, negsuc, ◌≤ℤ◌,
  ◌==ℤ◌, ==ℤ_iff, Bytes, codes, nat_key, bytes_key,
}
use android_hardware_mainlin.Sensors.Iio.AttributeName.{IioChannelId}
use android_hardware_mainlin.Sensors.Iio.SensorSpecs.{
  IioSensorSpec, has_channel, has_words, is_lower, find_index_from, match_iio_sensor_specs,
  add_scalar, add_vec3, temperature_specs, or_else, light_specs, light, find_channel_index,
  IioDeviceQuirks, has_other_types, SensorType, ambient_temperature, d_one, accelerometer, Payload,
  gyroscope, d_thousandth, k_scalar, magnetic_field, d_hundred, gravity, proximity, k_proximity,
  pressure, d_ten, relative_humidity, k_quaternion, hinge_angle, d_degrees, step_counter,
  k_step_count,
}

-- Every channel that the sensor is made of exists, and no channel of one of these kinds has a lower
-- index.
pub record IsBacked (channels : List IioChannelId) (spec : IioSensorSpec) : Type 0 where
  pub channels_exist :
      All (λ m. has_channel channels spec.iio_type m spec.index ≡ true) spec.modifiers
  pub index_lowest :
      (spec.index ≡ negsuc 0)
      ⊎ All
          (λ m. All (λ id. has_words spec.iio_type m id ≡ true → spec.index ≤ℤ id.index) channels)
          spec.modifiers

abbrev AtMost : ℤ → Option ℤ → Type 0
AtMost index none = Unit
AtMost index (some best) = index ≤ℤ best

AtMost-lower :
    (index i : ℤ) (best : Option ℤ) → is_lower i best ≡ true → index ≤ℤ i → AtMost index best
AtMost-lower index i none h k = tt
AtMost-lower index i (some best) h k = ground arith

AtMost-above :
    (index i : ℤ) (best : Option ℤ) → is_lower i best ≡ false → AtMost index best → index ≤ℤ i
AtMost-above index i none h k = absurd (ground arith)
AtMost-above index i (some best) h k = ground arith

and_right : (a b : Bool) → (a && b) ≡ true → b ≡ true
and_right a b h = ground arith

-- The index is that of the channel at hand, or of a later one.
taken_first :
    (words : Bool) (i index : ℤ) (lower later : Bool)
    → (words && lower) ≡ true
    → (some i ≡ some index) ⊎ (later ≡ true)
    → (words && (i ==ℤ index) || later) ≡ true
taken_first words i index lower later h (inl same) = ground (arith, ==ℤ_iff i index)
taken_first words i index lower later h (inr found) = ground arith

passed_first : {P : Type 0} (here later : Bool) → P ⊎ (later ≡ true) → P ⊎ ((here || later) ≡ true)
passed_first here later (inl p) = inl p
passed_first here later (inr found) = inr (ground arith)

find_index_from-least :
    (type modifier : Bytes) (best : Option ℤ) (channels : List IioChannelId) (index : ℤ)
    → find_index_from type modifier best channels ≡ some index
    → ((best ≡ some index) ⊎ (has_channel channels type modifier index ≡ true))
      × AtMost index best
      × All (λ id. has_words type modifier id ≡ true → index ≤ℤ id.index) channels
unfolding find_index_from has_channel
find_index_from-least type modifier best [] index e = (inl e, rw e (omega arith), tt)
find_index_from-least type modifier best (id ∷ rest) index e =
    elim (Bool-cases (has_words type modifier id && is_lower id.index best)) [
      | inl taken ↦
          let later =
            find_index_from-least type modifier (some id.index) rest index (rw taken at e) in
          (
            inr (taken_first (has_words type modifier id) id.index index _ _ taken later.0),
            AtMost-lower index id.index best (and_right (has_words type modifier id) _ taken)
                later.1,
            ((λ words. later.1), later.2),
          )
      | inr passed ↦
          let later = find_index_from-least type modifier best rest index (rw passed at e) in
          (
            passed_first _ _ later.0,
            later.1,
            ((λ words. AtMost-above index id.index best (rw words at passed) later.1), later.2),
          )
    ]

axes_exist :
    (a b c : Bool) → (a && b && c) ≡ true → (a ≡ true) × ((b ≡ true) × ((c ≡ true) × Unit {0}))
axes_exist true true true h = (refl, (refl, (refl, tt)))
axes_exist true true false h = absurd (ground (arith, h))
axes_exist true false c h = absurd (ground (arith, h))
axes_exist false b c h = absurd (ground (arith, h))

found_exists : (index : ℤ) (b : Bool) → (none ≡ some index) ⊎ (b ≡ true) → b ≡ true
found_exists index b (inl e) = absurd (ground (arith, e))
found_exists index b (inr e) = e

find_channel_index-least :
    (type modifier : Bytes) (channels : List IioChannelId) (index : ℤ)
    → find_channel_index channels type modifier ≡ some index
    → (has_channel channels type modifier index ≡ true)
      × All (λ id. has_words type modifier id ≡ true → index ≤ℤ id.index) channels
unfolding find_channel_index
find_channel_index-least type modifier channels index e =
    let least = find_index_from-least type modifier none channels index e in
    (found_exists index _ least.0, least.2)

module _ (channels : List IioChannelId) where
  add_vec3-IsBacked :
      (iio_type : Bytes) (type : SensorType) (factor : ℕ)
      → All (IsBacked channels) (add_vec3 channels iio_type type factor)
  unfolding add_vec3
  add_vec3-IsBacked iio_type type factor =
      elim (Bool-cases (
        has_channel channels iio_type (codes "x") (negsuc 0)
        && has_channel channels iio_type (codes "y") (negsuc 0)
        && has_channel channels iio_type (codes "z") (negsuc 0))) [
          | inl complete ↦
              rw complete
                (record { channels_exist = axes_exist _ _ _ complete; index_lowest = inl refl }, tt)
          | inr missing ↦ rw missing tt
        ]

  add_scalar-IsBacked :
      (iio_type modifier : Bytes) (type : SensorType) (factor : ℕ) (payload : Payload)
      → All (IsBacked channels) (add_scalar channels iio_type modifier type factor payload)
  unfolding add_scalar
  add_scalar-IsBacked iio_type modifier type factor payload =
      elim (Option-cases (find_channel_index channels iio_type modifier)) [
        | inl missing ↦ rw (missing, All) tt
        | inr (index, found) ↦
            let least = find_channel_index-least iio_type modifier channels index found in
            rw (found, All)
              (record { channels_exist = (least.0, tt); index_lowest = inr (least.1, tt) }, tt)
      ]

  or_else-IsBacked :
      (a b : List IioSensorSpec)
      → All (IsBacked channels) a
      → All (IsBacked channels) b
      → All (IsBacked channels) (or_else a b)
  or_else-IsBacked [] b h k = k
  or_else-IsBacked (spec ∷ a) b h k = h

  IsBacked-append :
      (a b : List IioSensorSpec)
      → All (IsBacked channels) a
      → All (IsBacked channels) b
      → All (IsBacked channels) (a ++ b)
  IsBacked-append = All-append (IsBacked channels)

  light_specs-IsBacked : All (IsBacked channels) (light_specs channels)
  unfolding light_specs
  light_specs-IsBacked =
      or_else-IsBacked _ _ (add_scalar-IsBacked (codes "illuminance") [] light d_one k_scalar) (
        or_else-IsBacked _ _
          (add_scalar-IsBacked (codes "intensity") (codes "both") light d_one k_scalar)
          (add_scalar-IsBacked (codes "intensity") (codes "clear") light d_one k_scalar))

  temperature_specs-IsBacked :
      (expose_temperature : Bool)
      → All (IsBacked channels) (temperature_specs channels expose_temperature)
  unfolding temperature_specs
  temperature_specs-IsBacked expose_temperature =
      elim (Bool-cases (expose_temperature || not (has_other_types channels))) [
        | inl shown ↦ rw shown (
            or_else-IsBacked _ _
              (add_scalar-IsBacked (codes "temp") (codes "ambient") ambient_temperature d_thousandth
                k_scalar)
              (add_scalar-IsBacked (codes "temp") [] ambient_temperature d_thousandth k_scalar))
        | inr hidden ↦ rw hidden tt
      ]

  -- Whatever the channels of a device, its quirks and the setting, each sensor that
  -- MatchIioSensorSpecs describes has all the channels it reads, and its index, unless it is -1, is
  -- the lowest of the channels with its type and modifier.
  pub match_iio_sensor_specs-IsBacked :
      (quirks : IioDeviceQuirks) (expose_temperature : Bool)
      → All (IsBacked channels) (match_iio_sensor_specs channels quirks expose_temperature)
  unfolding match_iio_sensor_specs
  match_iio_sensor_specs-IsBacked quirks expose_temperature =
      IsBacked-append _ _ (add_vec3-IsBacked (codes "accel") accelerometer d_one) (
        IsBacked-append _ _ (add_vec3-IsBacked (codes "anglvel") gyroscope d_one) (
          IsBacked-append _ _ (add_vec3-IsBacked (codes "magn") magnetic_field d_hundred) (
            IsBacked-append _ _ (add_vec3-IsBacked (codes "gravity") gravity d_one) (
              IsBacked-append _ _ (light_specs-IsBacked) (
                IsBacked-append _ _
                  (add_scalar-IsBacked (codes "proximity") [] proximity d_one k_proximity)
                  (IsBacked-append _ _
                    (add_scalar-IsBacked (codes "pressure") [] pressure
                      (if quirks.pressure_in_hpa then d_one else d_ten) k_scalar)
                    (IsBacked-append _ _
                      (add_scalar-IsBacked (codes "humidityrelative") [] relative_humidity
                        d_thousandth k_scalar)
                      (IsBacked-append _ _ (temperature_specs-IsBacked expose_temperature) (
                        IsBacked-append _ _
                          (add_scalar-IsBacked (codes "rot") (codes "quaternion")
                            quirks.rotation_vector_type d_one k_quaternion)
                          (IsBacked-append _ _
                            (add_scalar-IsBacked (codes "angl") [] hinge_angle d_degrees k_scalar)
                            (add_scalar-IsBacked (codes "steps") [] step_counter d_one
                              k_step_count)))))))))))
