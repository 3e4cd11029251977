-- ===== src/Iam.antt =====
-- services/iam: accounts and their sessions.
pub mod User
pub mod Store
pub mod Auth
