-- ===== src/Webhook.antt =====
-- internal/webhook/v1beta1: the admission webhooks. Validation is validation.go, Admission the
-- defaulters and validators of the four kinds.
mod Reports
mod Validation
mod Admission
pub mod MachineRules
pub mod ClusterRules
pub mod TemplateRules
unfoldable pub use Validation.*
unfoldable pub use Admission.*
