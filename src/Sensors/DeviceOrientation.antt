-- ===== src/Sensors/DeviceOrientation.antt =====
-- interfaces/sensors/mainline/composite/DeviceOrientationSensor.cpp, with MountMatrix::Apply of
-- utils/common/MountMatrix.cpp: the composite sensor that turns accelerometer events into a screen
-- rotation. Floats are binary32 patterns, and their arithmetic (FloatMath) is a parameter. A
-- timestamp is an int64_t far from its limits, so differences of timestamps do not wrap.
use android_hardware_mainlin.Prelude.{
  ℕ, zero, suc, ◌+◌, ◌-◌, ◌*◌, ◌/◌, ◌%◌, ◌^◌, ◌≤◌, ◌<◌, bit_and, bit_or, String, ◌≡◌, refl, sym, ap,
  subst, ◌∙◌, ap₂, subst₂, ◌≢◌, ◌↔◌, ◌⊎◌, inl, inr, Bool, true, false, not, ◌&&◌, ◌||◌, Option,
  none, some, List, [], ◌∷◌, ◌++◌, map, append-nil, append_assoc, arith, ltb, leb, ◌==◌,
  if◌then◌else◌, ==_iff, ==_refl, Bool-cases, Option-cases, is_some, get_or_else, length,
  length-append, get_elem?, is_empty, any_of, find_if, All, All-append, All-mono, ℤ, pos, negsuc,
  pos_part, neg_part, sub_ℕ, ◌+ℤ◌, ◌-ℤ◌, ◌*ℤ◌, ◌≤ℤ◌, ◌<ℤ◌, ltb_ℤ, ◌==ℤ◌, ==ℤ_iff, min_ℤ, Bytes,
  codes, bytes_eq, bytes_eq_iff, Key, nat_key, bytes_key, lookup, insert, erase, lookup-insert,
  lookup-erase, contains, AndroidBase, SplitsAtEach,
}
pub mod Spacing
use android_hardware_mainlin.Sensors.SensorType.{
  SensorType, accelerometer, device_orientation, same_type,
}
use android_hardware_mainlin.Sensors.SensorTypes.Traits.{SensorInfo}
use android_hardware_mainlin.Sensors.SensorTypes.Modes.{FlagBits}
use android_hardware_mainlin.Sensors.SensorTypes.Defaults.{apply_sensor_type_defaults}
use android_hardware_mainlin.Sensors.Events.{
  Event, EventPayload, vec3, vec4, scalar, step_count, meta, other_payload, make_scalar_event,
}
use android_hardware_mainlin.Sensors.Manager.State.{CompositeSensor, CompositeMethods}
use android_hardware_mainlin.Sensors.Settings.{Environment, Settings, get_bool, get_int}

-- The operations of the compiler and of <cmath> on floats.
pub record FloatMath : Type 0 where
  pub add : ℕ → ℕ → ℕ
  pub sub : ℕ → ℕ → ℕ
  pub mul : ℕ → ℕ → ℕ
  pub div : ℕ → ℕ → ℕ
  pub sqrt : ℕ → ℕ
  pub atan2 : ℕ → ℕ → ℕ
  pub fabs : ℕ → ℕ
  pub lround : ℕ → ℤ
  pub less : ℕ → ℕ → Bool
  pub of_int : ℤ → ℕ

pub record Vec : Type 0 where
  pub x : ℕ
  pub y : ℕ
  pub z : ℕ

pub record MountMatrix : Type 0 where
  pub row0 : Vec
  pub row1 : Vec
  pub row2 : Vec

abbrev pub f_one : ℕ
f_one = 0x3f800000

abbrev pub f_minus_one : ℕ
f_minus_one = 0xbf800000

abbrev pub identity : MountMatrix
identity = record {
  row0 = record { x = f_one; y = 0; z = 0 };
  row1 = record { x = 0; y = f_one; z = 0 };
  row2 = record { x = 0; y = 0; z = f_one };
}

module _ (math : FloatMath) where
  unfoldable pub apply_row : Vec → Vec → ℕ
  apply_row row v =
      math.add (math.add (math.mul row.x v.x) (math.mul row.y v.y)) (math.mul row.z v.z)

  unfoldable pub apply_matrix : MountMatrix → Vec → Vec
  unfolding apply_row
  apply_matrix m v = record {
    x = apply_row m.row0 v;
    y = apply_row m.row1 v;
    z = apply_row m.row2 v;
  }

-- The fields of the class; -1 for a rotation is none.
pub record Orientation : Type 0 where
  pub workaround_matrix : MountMatrix
  pub rotation_offset : ℤ
  pub reported_rotation : ℤ
  pub candidate_rotation : ℤ
  pub candidate_since_ns : ℤ

abbrev pub input_period_ns : ℤ
input_period_ns = pos 66000000

abbrev pub settle_time_ns : ℤ
settle_time_ns = pos 250000000

abbrev pub setting_key : Bytes → Bytes
setting_key name = codes "composite.device_orientation" ++ codes "." ++ name

abbrev pub no_rotation : ℤ
no_rotation = negsuc 0

-- The constructor: the sensor as it is handed to RegisterCompositeSensor.
unfoldable pub new_device_orientation_sensor : FlagBits → SensorInfo → CompositeSensor Orientation
new_device_orientation_sensor b blank = record {
  info =
      record (apply_sensor_type_defaults b
        (record blank { sensor_handle = 0xffffffff; type = device_orientation })) {
          name = codes "Device Orientation";
          vendor = codes "Mainline Sensors HAL";
          version = 1;
          max_range = 0x40400000;
          resolution = f_one;
          power = 0;
        };
  active = false;
  period_ns = pos 0;
  inner = record {
    workaround_matrix = identity;
    rotation_offset = pos 0;
    reported_rotation = no_rotation;
    candidate_rotation = no_rotation;
    candidate_since_ns = pos 0;
  };
}

-- offset_deg / 90 where it is one of the three values, and 0 otherwise.
unfoldable pub offset_of_degrees : ℤ → ℤ
offset_of_degrees d =
    if d ==ℤ pos 90
    then pos 1
    else if d ==ℤ pos 180
    then pos 2
    else if d ==ℤ pos 270
    then pos 3
    else pos 0

unfoldable pub workaround : Bool → Bool → Bool → Bool → MountMatrix
workaround swap_xy invert_x invert_y invert_z =
    let row_x : Vec = record { x = if invert_x then f_minus_one else f_one; y = 0; z = 0 } in
    let row_y : Vec = record { x = 0; y = if invert_y then f_minus_one else f_one; z = 0 } in
    record {
      row0 = if swap_xy then row_y else row_x;
      row1 = if swap_xy then row_x else row_y;
      row2 = record { x = 0; y = 0; z = if invert_z then f_minus_one else f_one };
    }

unfoldable pub flag_setting : AndroidBase → Environment → Settings → String → Bool
flag_setting base env s name = get_or_else (get_bool base env s (setting_key (codes name))) false

unfoldable pub load_workarounds : AndroidBase → Environment → Settings → Orientation → Orientation
unfolding offset_of_degrees workaround flag_setting
load_workarounds base env s o =
    let degrees =
      get_or_else (get_int base env s (setting_key (codes "rotation_offset"))) (pos 0) in
    record o {
      rotation_offset = offset_of_degrees degrees;
      workaround_matrix =
          workaround (flag_setting base env s "swap_xy") (flag_setting base env s "invert_x")
            (flag_setting base env s "invert_y") (flag_setting base env s "invert_z");
    }

-- Activate: active_ itself is set by the base class.
unfoldable pub on_activate : AndroidBase → Environment → Settings → Bool → Orientation → Orientation
unfolding load_workarounds
on_activate base env s enabled o =
    let reset = record o {
      reported_rotation = no_rotation;
      candidate_rotation = no_rotation;
      candidate_since_ns = pos 0;
    } in
    if enabled then load_workarounds base env s reset else reset

-- `% 4` on int32_t, which takes the sign of its first operand.
unfoldable pub rem4 : ℤ → ℤ
rem4 (pos n) = pos (n % 4)
rem4 (negsuc n) = sub_ℕ 0 (suc n % 4)

abbrev pub below_zero : ℤ → Bool
below_zero n = ltb_ℤ n (pos 0)

module _ (math : FloatMath) where
  abbrev degrees_of : ℕ → ℕ → ℕ
  degrees_of x y = math.div (math.mul (math.atan2 x y) 0x43340000) 0x40490fdb

  -- The angle of the gravity vector, from 0 up.
  unfoldable pub screen_angle : ℕ → ℕ → ℕ
  screen_angle x y =
      if math.less (degrees_of x y) 0 then math.add (degrees_of x y) 0x43b40000 else degrees_of x y

  unfoldable pub centre_distance : ℕ → ℤ → ℕ
  centre_distance angle candidate =
      let distance = math.fabs (math.sub angle (math.mul (math.of_int candidate) 0x42b40000)) in
      if math.less 0x43340000 distance then math.sub 0x43b40000 distance else distance

  -- 0.35f * 9.80665f, 30.0f, 90.0f, 180.0f and 360.0f are written as patterns.
  unfoldable pub compute_rotation : ℤ → Vec → ℤ
  unfolding screen_angle centre_distance rem4
  compute_rotation offset v =
      let plane = math.sqrt (math.add (math.mul v.x v.x) (math.mul v.y v.y)) in
      let angle = screen_angle v.x v.y in
      let candidate = rem4 (math.lround (math.div angle 0x42b40000)) in
      if math.less plane (math.mul 0x3eb33333 0x411ce80a)
      then no_rotation
      else if math.less 0x41f00000 (centre_distance angle candidate)
      then no_rotation
      else rem4 (candidate +ℤ offset)

-- What ProcessEvent does with a rotation at a time: whether it reports.
unfoldable pub note_candidate : ℤ → ℤ → Orientation → Orientation
note_candidate rotation now o =
    if rotation ==ℤ o.candidate_rotation
    then o
    else record o { candidate_rotation = rotation; candidate_since_ns = now }

unfoldable pub settle : ℤ → ℤ → Orientation → Orientation × Bool
unfolding note_candidate
settle rotation now o =
    let noted = note_candidate rotation now o in
    if below_zero rotation
    then (record o { candidate_rotation = no_rotation }, false)
    else if rotation ==ℤ o.reported_rotation
    then (noted, false)
    else if not (below_zero o.reported_rotation)
        && ltb_ℤ (now -ℤ noted.candidate_since_ns) settle_time_ns
    then (noted, false)
    else (record noted { reported_rotation = rotation }, true)

abbrev pub vec3_of : EventPayload → Option Vec
vec3_of (vec3 x y z status) = some (record { x = x; y = y; z = z })
vec3_of (vec4 x y z w) = none
vec3_of (scalar value) = none
vec3_of (step_count steps) = none
vec3_of (meta what) = none
vec3_of (other_payload tag) = none

unfoldable pub process_vec :
    FloatMath → CompositeSensor Orientation → ℤ → Vec → Orientation × List Event
unfolding apply_matrix compute_rotation settle
process_vec math c now v =
    let rotation =
      compute_rotation math c.inner.rotation_offset
        (apply_matrix math c.inner.workaround_matrix v) in
    let (o, reports) = settle rotation now c.inner in
    (
      o,
      if reports
          then make_scalar_event c.info.sensor_handle c.info.type now (math.of_int rotation) ∷ []
          else [],
    )

unfoldable pub process_event :
    FloatMath → CompositeSensor Orientation → Event → Orientation × List Event
unfolding process_vec
process_event math c event =
    if not c.active || not (same_type event.sensor_type accelerometer)
    then (c.inner, [])
    else elim (vec3_of event.payload) [
      | none ↦ (c.inner, [])
      | some v ↦ process_vec math c event.timestamp v
    ]

-- What the manager calls.
unfoldable pub device_orientation_methods :
    FloatMath → AndroidBase → Environment → Settings → CompositeMethods Orientation
unfolding on_activate process_event
device_orientation_methods math base env s = record {
  get_input_sensor_types = λ o. accelerometer ∷ [];
  get_input_sampling_period_ns = λ o. input_period_ns;
  on_activate = on_activate base env s;
  process_event = process_event math;
}
