-- ===== src/Transport.antt =====
-- pkg/transport: the resilience parts of the HTTP client.
pub mod CircuitBreaker
pub mod RateLimit
pub mod Client
mod Examples
