-- ===== src/Stream.antt =====
-- rpc/stream_server.py and rpc/stream_client.py: the point-to-point state stream.
pub mod Server
pub mod Client
pub mod Steps
pub mod Freshness
pub mod Pruning
pub mod Departed
pub mod Staleness
mod Examples
