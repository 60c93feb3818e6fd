-- ===== src/Audit.antt =====
-- contentops/audit/writer.py: the hash-chained audit trail.
pub mod Record
pub mod Chain
pub mod Tail
pub mod Verify
pub mod Write
