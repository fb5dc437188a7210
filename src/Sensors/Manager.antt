-- ===== src/Sensors/Manager.antt =====
-- interfaces/sensors/mainline/SensorManager.cpp and SensorManager.h: the flat list of sensors over
-- the backends and the composite sensors. `State` has the data, `Apply`,
-- `Requests`, `Delivery`, `Registration`, `Composites` and `Discovery` the operations; the others
-- prove.
pub mod State
pub mod Apply
pub mod Requests
pub mod Delivery
pub mod Registration
pub mod Composites
pub mod Discovery
pub mod Protocol
pub mod Synced
pub mod Applied
pub mod Preserved
pub mod Step
pub mod Waiting
pub mod Rollback
pub mod Numbering
pub mod Routing
