-- ===== src/Ws.antt =====
-- pkg/clob/ws: the WebSocket client and its subscriptions.
pub mod Refs
pub mod Requests
pub mod Config
pub mod Buffers
pub mod Events
pub mod Client
mod Examples
