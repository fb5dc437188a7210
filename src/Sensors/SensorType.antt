-- ===== src/Sensors/SensorType.antt =====
-- interfaces/sensors/mainline: the AIDL enum SensorType, by the names that the sources use
-- (utils/common/SensorTypes.cpp, SensorManager.cpp, Sensors.cpp), and its equality test.
use android_hardware_mainlin.Prelude.{
  ℕ, zero, suc, ◌+◌, ◌≡◌, refl, sym, ap, ◌∙◌, ◌↔◌, List, [], ◌∷◌, Bool, true, arith, ◌==◌, ==_iff,
  Key,
}

-- `other n` stands for the values of the enum that no source names, private types among them.
pub data SensorType : Type 0 where
  accelerometer magnetic_field orientation gyroscope light pressure proximity gravity
        linear_acceleration rotation_vector relative_humidity ambient_temperature
        magnetic_field_uncalibrated game_rotation_vector gyroscope_uncalibrated significant_motion
        step_detector step_counter geomagnetic_rotation_vector heart_rate tilt_detector wake_gesture
        glance_gesture pick_up_gesture wrist_tilt_gesture device_orientation pose_6dof
        stationary_detect motion_detect heart_beat low_latency_offbody_detect
        accelerometer_uncalibrated hinge_angle head_tracker accelerometer_limited_axes
        gyroscope_limited_axes accelerometer_limited_axes_uncalibrated
        gyroscope_limited_axes_uncalibrated heading moisture_intrusion meta_data additional_info :
      SensorType
  other : ℕ → SensorType

-- The position of a type in the declaration above: a code for the equality test.
abbrev type_index : SensorType → ℕ
type_index accelerometer = 0
type_index magnetic_field = 1
type_index orientation = 2
type_index gyroscope = 3
type_index light = 4
type_index pressure = 5
type_index proximity = 6
type_index gravity = 7
type_index linear_acceleration = 8
type_index rotation_vector = 9
type_index relative_humidity = 10
type_index ambient_temperature = 11
type_index magnetic_field_uncalibrated = 12
type_index game_rotation_vector = 13
type_index gyroscope_uncalibrated = 14
type_index significant_motion = 15
type_index step_detector = 16
type_index step_counter = 17
type_index geomagnetic_rotation_vector = 18
type_index heart_rate = 19
type_index tilt_detector = 20
type_index wake_gesture = 21
type_index glance_gesture = 22
type_index pick_up_gesture = 23
type_index wrist_tilt_gesture = 24
type_index device_orientation = 25
type_index pose_6dof = 26
type_index stationary_detect = 27
type_index motion_detect = 28
type_index heart_beat = 29
type_index low_latency_offbody_detect = 30
type_index accelerometer_uncalibrated = 31
type_index hinge_angle = 32
type_index head_tracker = 33
type_index accelerometer_limited_axes = 34
type_index gyroscope_limited_axes = 35
type_index accelerometer_limited_axes_uncalibrated = 36
type_index gyroscope_limited_axes_uncalibrated = 37
type_index heading = 38
type_index moisture_intrusion = 39
type_index meta_data = 40
type_index additional_info = 41
type_index (other n) = 42 + n

nth_type : List SensorType → ℕ → SensorType
nth_type [] n = other n
nth_type (t ∷ ts) zero = t
nth_type (t ∷ ts) (suc n) = nth_type ts n

abbrev named_types : List SensorType
named_types =
    accelerometer ∷ magnetic_field ∷ orientation ∷ gyroscope ∷ light ∷ pressure ∷ proximity
    ∷ gravity ∷ linear_acceleration ∷ rotation_vector ∷ relative_humidity ∷ ambient_temperature
    ∷ magnetic_field_uncalibrated ∷ game_rotation_vector ∷ gyroscope_uncalibrated
    ∷ significant_motion ∷ step_detector ∷ step_counter ∷ geomagnetic_rotation_vector ∷ heart_rate
    ∷ tilt_detector ∷ wake_gesture ∷ glance_gesture ∷ pick_up_gesture ∷ wrist_tilt_gesture
    ∷ device_orientation ∷ pose_6dof ∷ stationary_detect ∷ motion_detect ∷ heart_beat
    ∷ low_latency_offbody_detect ∷ accelerometer_uncalibrated ∷ hinge_angle ∷ head_tracker
    ∷ accelerometer_limited_axes ∷ gyroscope_limited_axes ∷ accelerometer_limited_axes_uncalibrated
    ∷ gyroscope_limited_axes_uncalibrated ∷ heading ∷ moisture_intrusion ∷ meta_data
    ∷ additional_info ∷ []

nth_type-type_index : (t : SensorType) → nth_type named_types (type_index t) ≡ t
unfolding nth_type
nth_type-type_index accelerometer = refl
nth_type-type_index magnetic_field = refl
nth_type-type_index orientation = refl
nth_type-type_index gyroscope = refl
nth_type-type_index light = refl
nth_type-type_index pressure = refl
nth_type-type_index proximity = refl
nth_type-type_index gravity = refl
nth_type-type_index linear_acceleration = refl
nth_type-type_index rotation_vector = refl
nth_type-type_index relative_humidity = refl
nth_type-type_index ambient_temperature = refl
nth_type-type_index magnetic_field_uncalibrated = refl
nth_type-type_index game_rotation_vector = refl
nth_type-type_index gyroscope_uncalibrated = refl
nth_type-type_index significant_motion = refl
nth_type-type_index step_detector = refl
nth_type-type_index step_counter = refl
nth_type-type_index geomagnetic_rotation_vector = refl
nth_type-type_index heart_rate = refl
nth_type-type_index tilt_detector = refl
nth_type-type_index wake_gesture = refl
nth_type-type_index glance_gesture = refl
nth_type-type_index pick_up_gesture = refl
nth_type-type_index wrist_tilt_gesture = refl
nth_type-type_index device_orientation = refl
nth_type-type_index pose_6dof = refl
nth_type-type_index stationary_detect = refl
nth_type-type_index motion_detect = refl
nth_type-type_index heart_beat = refl
nth_type-type_index low_latency_offbody_detect = refl
nth_type-type_index accelerometer_uncalibrated = refl
nth_type-type_index hinge_angle = refl
nth_type-type_index head_tracker = refl
nth_type-type_index accelerometer_limited_axes = refl
nth_type-type_index gyroscope_limited_axes = refl
nth_type-type_index accelerometer_limited_axes_uncalibrated = refl
nth_type-type_index gyroscope_limited_axes_uncalibrated = refl
nth_type-type_index heading = refl
nth_type-type_index moisture_intrusion = refl
nth_type-type_index meta_data = refl
nth_type-type_index additional_info = refl
nth_type-type_index (other n) =
    let e : 42 + n
        ≡ suc (
            suc (
              suc (
                suc (
                  suc (
                    suc (
                      suc (
                        suc (
                          suc (
                            suc (
                              suc (
                                suc (
                                  suc (
                                    suc (
                                      suc (
                                        suc (
                                          suc (
                                            suc (
                                              suc (
                                                suc (
                                                  suc (
                                                    suc (
                                                      suc (
                                                        suc (
                                                          suc (
                                                            suc (
                                                            suc (
                                                            suc (
                                                            suc (
                                                            suc (
                                                            suc (
                                                            suc (
                                                            suc (
                                                            suc (
                                                            suc (
                                                            suc
                                                            (suc (suc (suc (suc (suc (suc (n))))))))
                                                            )))))))))))))))))))))))))))))))))) =
      omega arith in
    rw e refl

abbrev pub same_type : SensorType → SensorType → Bool
same_type a b = type_index a == type_index b

pub same_type_iff : (a b : SensorType) → (same_type a b ≡ true) ↔ (a ≡ b)
same_type_iff a b = (
  λ h.
      sym (nth_type-type_index a)
      ∙ ap (nth_type named_types) ((==_iff _ _).0 h)
      ∙ nth_type-type_index b,
  λ e. (==_iff _ _).1 (ap type_index e),
)

instance abbrev pub sensor_type_key : Key SensorType
sensor_type_key = record { beq = same_type; beq_iff = same_type_iff }
