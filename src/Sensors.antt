-- ===== src/Sensors.antt =====
-- interfaces/sensors/mainline: the sensors HAL.
pub mod SensorType
pub mod SensorTypes
pub mod Events
pub mod EventDispatcher
pub mod Settings
pub mod DmiModalias
pub mod SensorHwdb
pub mod BackendLoader
pub mod Manager
pub mod DeviceOrientation
pub mod Service
pub mod Iio
