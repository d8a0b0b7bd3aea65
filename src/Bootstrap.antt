-- ===== src/Bootstrap.antt =====
-- internal/bootstrap/cloudconfig.go: cloud-config made into a startup script. Types has what is
-- parsed, Shell the quoting, users and NTP, Files write_files, Startup the whole script and its size.
mod Types
mod Shell
mod Files
mod Startup
pub mod Words
pub mod Size
pub mod Payload
unfoldable pub use Types.*
unfoldable pub use Shell.*
unfoldable pub use Files.*
unfoldable pub use Startup.*
use cluster_api_provider_ver.Bootstrap.Types.{Script}
