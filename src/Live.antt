-- ===== src/Live.antt =====
-- Work in flight, the shutdown that waits for it, connections and the watchers of sessions.
pub mod Sessions
pub mod Work
pub mod Conn
pub mod Hub
pub mod Relay
