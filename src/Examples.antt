-- ===== src/Examples.antt =====
-- The programs of examples/ that iterate on the host and compare with the device.
pub mod Slices
pub mod HostLoop
pub mod Compared
pub mod DeviceUpdate
