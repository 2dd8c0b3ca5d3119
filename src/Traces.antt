-- ===== src/Traces.antt =====
-- What is read off a trace: the tools that were run and the audit rows that were written, newest first;
-- and which actions leave such a view alone.
mod Rules
pub mod Stable
pub mod Raising
pub mod Views
pub mod Added
pub mod Yields
pub use Rules.*
