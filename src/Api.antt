-- ===== src/Api.antt =====
-- api/v1beta1: the custom resources. The metadata fields are those that the controllers read or
-- write; list and registration boilerplate is left out.
mod Machine
mod Cluster
mod Template
unfoldable pub use Machine.*
unfoldable pub use Cluster.*
pub use Template.*
