-- ===== src/K8s.antt =====
-- server/internal/k8s: what is read off pods and workloads.
pub mod Containers
pub mod Restarts
pub mod Trouble
