-- ===== src/Alerts.antt =====
-- services/alert-notification: rules, the rule engine and the delivery of notifications.
pub mod Rule
pub mod RuleEngine
pub mod Notification
pub mod Delivery
