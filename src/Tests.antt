-- ===== src/Tests.antt =====
-- Runs of the model on concrete requests, and the theorems at concrete inputs.
mod Fixtures
mod Gateway
mod Mediation
mod Approvals
mod Signatures
mod Limits
mod Integrity
mod Query
mod Exports
mod Site
mod Tools
mod Hub
