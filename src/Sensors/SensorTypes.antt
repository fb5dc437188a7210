-- ===== src/Sensors/SensorTypes.antt =====
-- interfaces/sensors/mainline/utils/common/SensorTypes.cpp and SensorTypes.h: the traits of the
-- sensor types, their defaults, and the clamping of a sampling period.
pub mod Traits
pub mod Modes
pub mod Defaults
pub mod Clamp
