-- ===== src/Cluster.antt =====
-- internal/controller/verdacluster_controller.go and verdacluster_servicelb.go: the VerdaCluster
-- reconciler. Types and Helpers are its records and edits, KeySecrets the SSH keys, ControlPlane
-- the control plane's instance and backends, Endpoint the endpoint that it gives, ServiceLb the
-- services' load balancer, Deletion the teardown, Reconcile the entry point.
mod Types
mod Helpers
mod KeySecrets
mod ControlPlane
mod Endpoint
mod ServiceLb
mod Deletion
mod Reconcile
pub mod Provisioned
pub mod Teardown
pub mod Stale
pub mod KeyStability
pub mod Single
pub mod Recorded
pub mod Ready
unfoldable pub use Types.*
unfoldable pub use Helpers.*
unfoldable pub use KeySecrets.*
unfoldable pub use ControlPlane.*
unfoldable pub use Endpoint.*
unfoldable pub use ServiceLb.*
unfoldable pub use Deletion.*
unfoldable pub use Reconcile.*
