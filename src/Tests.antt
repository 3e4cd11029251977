-- ===== src/Tests.antt =====
-- Runs of the model on concrete inputs, each by the theorem of its name.
pub mod Data
pub mod Formats
pub mod Writes
pub mod Responses
pub mod Rules
pub mod Accounts
pub mod Devices
pub mod Subscribers
