-- ===== src/Terminal.antt =====
-- server/internal/kubectlsh: the terminal that is scoped to kubectl, helm and one cluster.
pub mod Split
pub mod Gate
pub mod Session
