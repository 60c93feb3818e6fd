-- ===== src/Prune.antt =====
-- `contentops prune` (contentops/cli/commands/prune.py): the deletion of remote assets that have no
-- local file. The workspace lookup before it and the messages are not modelled; `drift_handlers` are
-- the registered drift-capable handlers, each with what its `list_remote` returned.
pub mod Plan
pub mod Run
pub mod Locks
pub mod Orphans
pub mod Safe
