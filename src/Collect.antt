-- ===== src/Collect.antt =====
-- examples/scripts/collect_data.py: the foot pedal, the episodes that it controls and the alerts.
pub mod Pedal
pub mod Reconnects
pub mod Clicks
pub mod Episodes
pub mod Alternation
pub mod Presses
pub mod Alerts
pub mod Recovery
mod Examples
