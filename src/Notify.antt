-- ===== src/Notify.antt =====
-- Who is notified of what on which channel: pkg/common/notification_policy.go and
-- pkg/common/notification_prefs.go.
mod Prefs
mod Policy
mod Members
pub mod Clamp
pub mod Normal
unfoldable pub use Prefs.*
unfoldable pub use Policy.*
