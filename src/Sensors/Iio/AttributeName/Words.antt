-- ===== src/Sensors/Iio/AttributeName/Words.antt =====
-- interfaces/sensors/mainline/backends/iio/IioTypes.cpp: the words of IIO attribute names.
use android_hardware_mainlin.Prelude.{List, [], ◌∷◌, map, Bytes, codes, nat_key, bytes_key}

-- kChannelTypes.
abbrev pub channel_types : List Bytes
channel_types = map codes (
    "voltage" ∷ "current" ∷ "power" ∷ "accel" ∷ "anglvel" ∷ "magn" ∷ "illuminance" ∷ "intensity"
    ∷ "proximity" ∷ "temp" ∷ "incli" ∷ "rot" ∷ "angl" ∷ "timestamp" ∷ "capacitance" ∷ "altvoltage"
    ∷ "cct" ∷ "pressure" ∷ "humidityrelative" ∷ "activity" ∷ "steps" ∷ "energy" ∷ "distance"
    ∷ "velocity" ∷ "concentration" ∷ "resistance" ∷ "ph" ∷ "uvindex" ∷ "electricalconductivity"
    ∷ "count" ∷ "index" ∷ "gravity" ∷ "positionrelative" ∷ "phase" ∷ "massconcentration"
    ∷ "deltaangl" ∷ "deltavelocity" ∷ "colortemp" ∷ "chromaticity" ∷ "attention" ∷ "altcurrent"
    ∷ [])

-- kModifiers.
abbrev pub modifiers : List Bytes
modifiers = map codes (
    "x" ∷ "y" ∷ "z" ∷ "x&y" ∷ "x&z" ∷ "y&z" ∷ "x&y&z" ∷ "x|y" ∷ "x|z" ∷ "y|z" ∷ "x|y|z" ∷ "both"
    ∷ "ir" ∷ "sqrt(x^2+y^2)" ∷ "x^2+y^2+z^2" ∷ "clear" ∷ "red" ∷ "green" ∷ "blue" ∷ "quaternion"
    ∷ "ambient" ∷ "object" ∷ "from_north_magnetic" ∷ "from_north_true"
    ∷ "from_north_magnetic_tilt_comp" ∷ "from_north_true_tilt_comp" ∷ "running" ∷ "jogging"
    ∷ "walking" ∷ "still" ∷ "sqrt(x^2+y^2+z^2)" ∷ "i" ∷ "q" ∷ "co2" ∷ "voc" ∷ "uv" ∷ "duv" ∷ "pm1"
    ∷ "pm2p5" ∷ "pm4" ∷ "pm10" ∷ "ethanol" ∷ "h2" ∷ "o2" ∷ "linear_x" ∷ "linear_y" ∷ "linear_z"
    ∷ "pitch" ∷ "yaw" ∷ "roll" ∷ "uva" ∷ "uvb" ∷ "rms" ∷ "active" ∷ "reactive" ∷ "apparent" ∷ [])

-- kPostfixes.
abbrev pub postfixes : List Bytes
postfixes = map codes (
    "sampling_frequency_available" ∷ "integration_time_available" ∷ "calibbias_available"
    ∷ "hysteresis_relative" ∷ "sampling_frequency" ∷ "scale_available" ∷ "integration_time"
    ∷ "mount_matrix" ∷ "hysteresis" ∷ "calibscale" ∷ "calibbias" ∷ "nearlevel" ∷ "offset" ∷ "scale"
    ∷ "input" ∷ "label" ∷ "index" ∷ "type" ∷ "raw" ∷ "en" ∷ [])
