-- ===== src/Auth.antt =====
-- pkg/auth: authentication, permission checks, grants, access requests, explanations, codes and tokens.
mod Check
mod Grant
mod Request
pub mod Decision
pub mod Approval
pub mod Effect
pub mod Mfa
pub mod Jwt
pub mod GatewayUser
pub mod Explain
pub mod Effective
unfoldable pub use Check.*
unfoldable pub use Grant.*
unfoldable pub use Request.*
