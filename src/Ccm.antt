-- ===== src/Ccm.antt =====
-- internal/ccm: the cloud controller manager's provider. Types has the fields of Kubernetes'
-- services and nodes that it reads; Provider is provider.go, Frontends and ServiceLb loadbalancer.go.
mod Types
mod Frontends
mod Provider
mod ServiceLb
pub mod Slots
pub mod Exposure
pub mod Backends
pub mod Upload
pub mod Nodes
pub mod Publication
pub mod Refinement
unfoldable pub use Types.*
unfoldable pub use Frontends.*
unfoldable pub use Provider.*
unfoldable pub use ServiceLb.*
