-- ===== src/Sensors/Settings/Values.antt =====
-- SanitizeKeyComponent of Settings.cpp.
use android_hardware_mainlin.Prelude.{nat_key, bytes_key}
