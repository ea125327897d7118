-- ===== src/Kube.antt =====
-- Just-in-time Kubernetes access: pkg/kube, pkg/server/kube.go and pkg/agent/kube.go.
pub mod Scope
pub mod Binding
pub mod Members
pub mod Converge
pub mod Reconcile
pub mod Client
pub mod Agent
