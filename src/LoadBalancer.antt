-- ===== src/LoadBalancer.antt =====
-- internal/loadbalancer: what is written to the instances that balance load.
mod Types
mod Templates
mod Haproxy
mod Envoy
mod Ssh
mod Session
pub mod Connections
unfoldable pub use Types.*
unfoldable pub use Templates.*
unfoldable pub use Haproxy.*
unfoldable pub use Envoy.*
unfoldable pub use Ssh.*
unfoldable pub use Session.*
use cluster_api_provider_ver.Base.{String}
use Prim.Native.String.{String}
