-- ===== src/Realtime.antt =====
-- services/query-realtime: pushing readings to subscribers.
pub mod Hub
