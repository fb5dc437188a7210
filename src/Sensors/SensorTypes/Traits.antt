-- ===== src/Sensors/SensorTypes/Traits.antt =====
-- The data of SensorTypes.h and the table of SensorTypes.cpp. A float is its binary32 pattern: this
-- code only copies floats, and the products of the table are rounded to single precision.
use android_hardware_mainlin.Prelude.{
  ℕ, Bool, true, false, List, [], ◌∷◌, Bytes, codes, ℤ, pos, negsuc,
}
use android_hardware_mainlin.Sensors.SensorType.{
  SensorType, accelerometer, magnetic_field, orientation, gyroscope, light, pressure, proximity,
  gravity, linear_acceleration, rotation_vector, relative_humidity, ambient_temperature,
  magnetic_field_uncalibrated, game_rotation_vector, gyroscope_uncalibrated, significant_motion,
  step_detector, step_counter, geomagnetic_rotation_vector, heart_rate, tilt_detector, wake_gesture,
  glance_gesture, pick_up_gesture, wrist_tilt_gesture, device_orientation, pose_6dof,
  stationary_detect, motion_detect, heart_beat, low_latency_offbody_detect,
  accelerometer_uncalibrated, hinge_angle, head_tracker, accelerometer_limited_axes,
  gyroscope_limited_axes, accelerometer_limited_axes_uncalibrated,
  gyroscope_limited_axes_uncalibrated, heading, moisture_intrusion,
}

pub data ReportingMode : Type 0 where
  continuous on_change one_shot special : ReportingMode

pub record SensorTypeTraits : Type 0 where
  pub type : SensorType
  pub label : Bytes
  pub config_name : Bytes
  pub reporting_mode : ReportingMode
  pub is_vec3 : Bool
  pub default_max_range : ℕ
  pub default_resolution : ℕ
  pub default_power_ma : ℕ
  pub default_min_delay_us : ℤ
  pub default_max_delay_us : ℤ
  pub default_wake_up : Bool

-- What the AIDL structure SensorInfo holds, as far as the sources name its fields.
pub record SensorInfo : Type 0 where
  pub sensor_handle : ℕ
  pub name : Bytes
  pub vendor : Bytes
  pub version : ℕ
  pub type : SensorType
  pub type_as_string : Bytes
  pub max_range : ℕ
  pub resolution : ℕ
  pub min_delay_us : ℤ
  pub power : ℕ
  pub fifo_reserved_event_count : ℕ
  pub fifo_max_event_count : ℕ
  pub required_permission : Bytes
  pub max_delay_us : ℤ
  pub flags : ℕ

abbrev pub one_second_us : ℕ
one_second_us = 1000000

-- One row of the table, with the fields in the order of the structure.
abbrev row :
    SensorType → Bytes → Bytes → ReportingMode → Bool → ℕ → ℕ → ℕ → ℤ → ℤ → Bool → SensorTypeTraits
row t label name mode vec3 range resolution power min_delay max_delay wake_up = record {
  type = t;
  label = label;
  config_name = name;
  reporting_mode = mode;
  is_vec3 = vec3;
  default_max_range = range;
  default_resolution = resolution;
  default_power_ma = power;
  default_min_delay_us = min_delay;
  default_max_delay_us = max_delay;
  default_wake_up = wake_up;
}

unfoldable pub k_traits : List SensorTypeTraits
k_traits =
    row accelerometer (codes "Accelerometer") (codes "accel") continuous true 0x421ce80a 0x3a83126f
      0x3e19999a (pos 10000) (pos one_second_us) false
    ∷ row magnetic_field (codes "Magnetometer") (codes "magn") continuous true 0x45992000 0x3dcccccd
        0x3f000000 (pos 20000) (pos one_second_us) false
    ∷ row orientation (codes "Orientation") (codes "orientation") continuous true 0x43b40000
        0x3dcccccd 0x3f800000 (pos 10000) (pos one_second_us) false
    ∷ row gyroscope (codes "Gyroscope") (codes "gyro") continuous true 0x420ba058 0x3a83126f
        0x3f800000 (pos 10000) (pos one_second_us) false
    ∷ row light (codes "Light") (codes "light") on_change false 0x461c4000 0x3f800000 0x3dcccccd
        (pos 0) (pos one_second_us) false
    ∷ row pressure (codes "Pressure") (codes "pressure") continuous false 0x44898000 0x3c23d70a
        0x3d4ccccd (pos 100000) (pos one_second_us) false
    ∷ row proximity (codes "Proximity") (codes "proximity") on_change false 0x40a00000 0x40a00000
        0x3dcccccd (pos 0) (pos one_second_us) true
    ∷ row gravity (codes "Gravity") (codes "gravity") continuous true 0x411ce80a 0x3a83126f
        0x3e19999a (pos 10000) (pos one_second_us) false
    ∷ row linear_acceleration (codes "Linear Acceleration") (codes "linear_accel") continuous true
        0x421ce80a 0x3a83126f 0x3e19999a (pos 10000) (pos one_second_us) false
    ∷ row rotation_vector (codes "Rotation Vector") (codes "rotation_vector") continuous false
        0x3f800000 0x38d1b717 0x3f800000 (pos 10000) (pos one_second_us) false
    ∷ row relative_humidity (codes "Humidity") (codes "humidity") on_change false 0x42c80000
        0x3dcccccd 0x3d4ccccd (pos 0) (pos one_second_us) false
    ∷ row ambient_temperature (codes "Temperature") (codes "temperature") on_change false 0x42fa0000
        0x3c23d70a 0x3d4ccccd (pos 0) (pos one_second_us) false
    ∷ row magnetic_field_uncalibrated (codes "Magnetometer Uncalibrated") (codes "magn_uncal")
        continuous false 0x45992000 0x3dcccccd 0x3f000000 (pos 20000) (pos one_second_us) false
    ∷ row game_rotation_vector (codes "Game Rotation Vector") (codes "game_rotation_vector")
        continuous false 0x3f800000 0x38d1b717 0x3f800000 (pos 10000) (pos one_second_us) false
    ∷ row gyroscope_uncalibrated (codes "Gyroscope Uncalibrated") (codes "gyro_uncal") continuous
        false 0x420ba058 0x3a83126f 0x3f800000 (pos 10000) (pos one_second_us) false
    ∷ row significant_motion (codes "Significant Motion") (codes "significant_motion") one_shot
        false 0x3f800000 0x3f800000 0x3dcccccd (negsuc 0) (pos 0) true
    ∷ row step_detector (codes "Step Detector") (codes "step_detector") special false 0x3f800000
        0x3f800000 0x3dcccccd (pos 0) (pos 0) false
    ∷ row step_counter (codes "Step Counter") (codes "step_counter") on_change false 0x49742400
        0x3f800000 0x3dcccccd (pos 0) (pos one_second_us) false
    ∷ row geomagnetic_rotation_vector (codes "Geomagnetic Rotation Vector")
        (codes "geomagnetic_rotation_vector") continuous false 0x3f800000 0x38d1b717 0x3f800000
        (pos 10000) (pos one_second_us) false
    ∷ row heart_rate (codes "Heart Rate") (codes "heart_rate") on_change false 0x437a0000 0x3f800000
        0x3f800000 (pos 0) (pos one_second_us) false
    ∷ row tilt_detector (codes "Tilt Detector") (codes "tilt_detector") special false 0x3f800000
        0x3f800000 0x3dcccccd (pos 0) (pos 0) true
    ∷ row wake_gesture (codes "Wake Gesture") (codes "wake_gesture") one_shot false 0x3f800000
        0x3f800000 0x3dcccccd (negsuc 0) (pos 0) true
    ∷ row glance_gesture (codes "Glance Gesture") (codes "glance_gesture") one_shot false 0x3f800000
        0x3f800000 0x3dcccccd (negsuc 0) (pos 0) true
    ∷ row pick_up_gesture (codes "Pick Up Gesture") (codes "pick_up_gesture") one_shot false
        0x3f800000 0x3f800000 0x3dcccccd (negsuc 0) (pos 0) true
    ∷ row wrist_tilt_gesture (codes "Wrist Tilt Gesture") (codes "wrist_tilt_gesture") special false
        0x3f800000 0x3f800000 0x3dcccccd (pos 0) (pos 0) true
    ∷ row device_orientation (codes "Device Orientation") (codes "device_orientation") on_change
        false 0x40400000 0x3f800000 0x3dcccccd (pos 0) (pos one_second_us) false
    ∷ row pose_6dof (codes "Pose 6DOF") (codes "pose_6dof") continuous false 0x3f800000 0x38d1b717
        0x3f800000 (pos 10000) (pos one_second_us) false
    ∷ row stationary_detect (codes "Stationary Detect") (codes "stationary_detect") one_shot false
        0x3f800000 0x3f800000 0x3dcccccd (negsuc 0) (pos 0) true
    ∷ row motion_detect (codes "Motion Detect") (codes "motion_detect") one_shot false 0x3f800000
        0x3f800000 0x3dcccccd (negsuc 0) (pos 0) true
    ∷ row heart_beat (codes "Heart Beat") (codes "heart_beat") continuous false 0x3f800000
        0x3f800000 0x3f800000 (pos 10000) (pos one_second_us) false
    ∷ row low_latency_offbody_detect (codes "Off-body Detect") (codes "offbody_detect") on_change
        false 0x3f800000 0x3f800000 0x3dcccccd (pos 0) (pos one_second_us) true
    ∷ row accelerometer_uncalibrated (codes "Accelerometer Uncalibrated") (codes "accel_uncal")
        continuous false 0x421ce80a 0x3a83126f 0x3e19999a (pos 10000) (pos one_second_us) false
    ∷ row hinge_angle (codes "Hinge Angle") (codes "hinge_angle") on_change false 0x43b40000
        0x3f800000 0x3dcccccd (pos 0) (pos one_second_us) true
    ∷ row head_tracker (codes "Head Tracker") (codes "head_tracker") continuous false 0x40490fdb
        0x38d1b717 0x3f800000 (pos 10000) (pos one_second_us) false
    ∷ row accelerometer_limited_axes (codes "Accelerometer Limited Axes")
        (codes "accel_limited_axes") continuous false 0x421ce80a 0x3a83126f 0x3e19999a (pos 10000)
        (pos one_second_us) false
    ∷ row gyroscope_limited_axes (codes "Gyroscope Limited Axes") (codes "gyro_limited_axes")
        continuous false 0x420ba058 0x3a83126f 0x3f800000 (pos 10000) (pos one_second_us) false
    ∷ row accelerometer_limited_axes_uncalibrated (codes "Accelerometer Limited Axes Uncalibrated")
        (codes "accel_limited_axes_uncal") continuous false 0x421ce80a 0x3a83126f 0x3e19999a
        (pos 10000) (pos one_second_us) false
    ∷ row gyroscope_limited_axes_uncalibrated (codes "Gyroscope Limited Axes Uncalibrated")
        (codes "gyro_limited_axes_uncal") continuous false 0x420ba058 0x3a83126f 0x3f800000
        (pos 10000) (pos one_second_us) false
    ∷ row heading (codes "Heading") (codes "heading") continuous false 0x43b40000 0x3dcccccd
        0x3f800000 (pos 10000) (pos one_second_us) false
    ∷ row moisture_intrusion (codes "Moisture Intrusion") (codes "moisture_intrusion") on_change
        false 0x3f800000 0x3f800000 0x3dcccccd (pos 0) (pos one_second_us) false
    ∷ []
