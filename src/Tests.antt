-- ===== src/Tests.antt =====
-- Sample data, and each theorem at a concrete input.
mod AuditSamples
mod AuditChain
mod AuditWrite
mod HttpCalls
mod StateRuns
mod ApplyRuns
mod PruneRuns
mod AlertRuns
mod LifecycleRuns
mod DriftRuns
