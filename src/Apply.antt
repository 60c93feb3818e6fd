-- ===== src/Apply.antt =====
-- The apply pipeline: contentops/cli/commands/apply.py and apply_support.py.
pub mod Order
pub mod Gates
pub mod Run
pub mod Accounts
pub mod Safe
pub mod Command
pub mod Gated
pub mod Outcomes
