-- ===== src/Tests.antt =====
-- Runs of the definitions and uses of the theorems at concrete inputs.
mod Fixtures
mod Access
mod Policies
mod Lifecycles
mod Handlers
mod Accounts
mod Watching
mod Clusters
mod Extensions
