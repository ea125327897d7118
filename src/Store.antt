-- ===== src/Store.antt =====
-- pkg/database/postgres.go: the statements on users, keys, machines, grants and access requests.
mod Rows
pub mod Permissions
pub mod Requests
pub mod Listing
pub mod Tokens
unfoldable pub use Rows.*
