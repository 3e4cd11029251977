-- ===== src/Registry.antt =====
-- services/device-registry: devices, the channels that they write to, and the channels' fields.
pub mod Integers
pub mod Device
pub mod Channel
pub mod Tables
pub mod Cache
pub mod Devices
pub mod Provisioning
pub mod Channels
pub mod Keys
pub mod WellFormed
pub mod History
