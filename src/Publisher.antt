-- ===== src/Publisher.antt =====
-- rpc/publisher.py: `PubSocket` and `BasePublisher`. A bound XPUB is named by the `PubSocket` it was
-- made for; what the owner thread sends is returned as a list. Time is in milliseconds.
pub mod Start
pub mod Owner
pub mod Routing
pub mod Presence
pub mod Heartbeats
pub mod Lifecycle
pub mod Forwarding
mod Examples
