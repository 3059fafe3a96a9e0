-- ===== src/Cluster.antt =====
-- server/internal/cluster: what is accepted of a kubeconfig, how a cluster is kept and written to, what
-- shows a change, draining a node and forwarding ports.
pub mod WriteGuard
pub mod Diff
pub mod Drain
pub mod Service
pub mod Forward
pub mod Ssrf
pub mod Kubeconfig
pub mod Types
