-- ===== src/Api.antt =====
-- The handlers of the gateway's API: pkg/api.
pub mod Review
pub mod Submit
pub mod Middleware
pub mod Bulk
pub mod Grants
pub mod Explain
