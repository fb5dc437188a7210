-- ===== src/Vibrator.antt =====
-- interfaces/vibrator/mainline: the vibrator HAL.
pub mod State
pub mod Device
pub mod Requests
pub mod Capabilities
pub mod Threads
pub mod Commands
pub mod Loaded
pub mod Owed
pub mod Replies
pub mod Callbacks
pub mod Kept
pub mod Endings
