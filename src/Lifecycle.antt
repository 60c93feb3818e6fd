-- ===== src/Lifecycle.antt =====
-- contentops/lifecycle.py: the gates of a promotion, and `promote`. The texts of the gates' details
-- are not modelled.
pub mod Gates
pub mod Stamp
pub mod Promote
