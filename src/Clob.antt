-- ===== src/Clob.antt =====
-- pkg/clob: the client of the central limit order book.
pub mod Pagination
pub mod Orders
mod Examples
