-- ===== src/Tools.antt =====
-- app/tools/: the executors of the thirteen tools.
pub mod Text
pub mod Backend
pub mod Config
pub mod KubeClient
pub mod Pods
pub mod Deployments
pub mod Manifest
pub mod HttpClient
pub mod Terraform
pub mod Jenkins
pub mod Queries
pub mod Registry
pub mod Accesses
pub mod Errors
pub mod HttpErrors
pub mod Statuses
pub mod Footprint
pub mod Permitted
pub mod Placed
pub mod Unsent
pub mod HttpPermitted
pub mod Bounded
pub mod Guards
pub mod Writes
pub mod Latest
