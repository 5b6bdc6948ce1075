-- ===== src/Poller.antt =====
-- internal/poller: the polling loop.
pub mod Mode
pub mod Budget
pub mod Alerts
pub mod Publish
pub mod Reports
pub mod Cycle
pub mod Schedule
pub mod Run
pub mod Healthz
