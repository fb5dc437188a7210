-- ===== src/Examples.antt =====
-- Concrete inputs, and the theorems at them.
mod Library
mod HwdbFiles
mod Devices
mod Requests
mod Iio
mod Cameras
mod Vibrations
