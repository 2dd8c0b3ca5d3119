-- ===== src/Mediation.antt =====
-- What stands between a request and an executor in the handler of POST /mcp.
pub mod Policy
mod Enforce
pub mod Gate
pub mod Complete
pub mod Audited
pub mod Accounted
pub mod Settling
pub mod Settled
pub mod Served
pub mod Resumed
pub mod Serving
pub mod Answers
pub mod Readable
pub mod Answered
pub mod JsonRpc
pub mod Conforming
