-- ===== src/Rpc.antt =====
-- rpc/client.py and rpc/server.py: remote calls over a REQ and a REP socket.
pub mod Wire
pub mod Server
pub mod Client
pub mod Readiness
pub mod Delivery
pub mod Serving
pub mod Sample
mod Examples
