-- ===== src/Hwdb.antt =====
-- libraries/libhwdb: the parser of systemd's hwdb files, lookups, and udev's sanitizing of keys.
pub mod Parser
pub mod Lookup
pub mod Udev
pub mod Records
pub mod Merge
pub mod Precedence
pub mod Stable
