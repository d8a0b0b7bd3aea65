-- ===== src/Machine.antt =====
-- internal/controller/verdamachine_controller.go: the VerdaMachine reconciler. Helpers is the pure
-- part and the finding of the instance, Volume the OS volume clone, Provision the creation and the
-- tracking of the instance, Deletion the teardown, Reconcile the entry point.
mod Helpers
mod Volume
mod Provision
mod Deletion
mod Reconcile
pub mod Scripts
pub mod Oversized
pub mod Teardown
pub mod Readiness
pub mod Resync
pub mod Throttle
pub mod Capacity
pub mod Convergence
pub mod Clones
unfoldable pub use Helpers.*
unfoldable pub use Volume.*
unfoldable pub use Provision.*
unfoldable pub use Deletion.*
unfoldable pub use Reconcile.*
