-- ===== src/Risk.antt =====
-- Risk-based routing of access requests: pkg/common/risk.go and pkg/common/risk_policy.go.
mod Signals
mod Policy
pub mod Hours
pub mod Decision
unfoldable pub use Signals.*
unfoldable pub use Policy.*
