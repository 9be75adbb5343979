-- ===== src/Execution.antt =====
-- pkg/execution: the contract between strategies and the exchange.
pub mod Retry
pub mod Lifecycle
pub mod Idempotency
pub mod WsPolicy
pub mod Engine
mod Examples
