-- ===== src/Sensors/Iio.antt =====
-- interfaces/sensors/mainline/backends/iio: the backend for the kernel's industrial I/O devices.
pub mod ScanType
pub mod Decode
pub mod ScanLayout
pub mod AttributeName
pub mod SensorSpecs
