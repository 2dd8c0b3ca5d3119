-- ===== src/Sse.antt =====
-- app/sse_hub.py: the queues of the open `GET /mcp/sse` connections.
pub mod Hub
pub mod Spec
pub mod Dicts
pub mod Queues
pub mod Refine
pub mod Closing
pub mod Runs
