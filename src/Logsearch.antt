-- ===== src/Logsearch.antt =====
-- server/internal/logsearch: what is looked for in the lines that workloads log.
pub mod Rules
