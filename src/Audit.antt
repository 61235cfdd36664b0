-- ===== src/Audit.antt =====
-- pkg/audit and internal/auditbuf: the records of decisions, and the queue in front of their sink.
pub mod Record
pub mod Buffer
pub mod Trail
