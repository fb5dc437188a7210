-- ===== src/Camera.antt =====
-- interfaces/camera/mainline: the camera HAL.
pub mod CameraIdAllocator
pub mod StreamPlanner
