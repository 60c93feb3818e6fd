-- ===== src/Drift.antt =====
-- contentops/core/drift.py: what `contentops drift` reports of a tenant.
pub mod Slug
pub mod Detect
pub mod Stable
pub mod Clean
pub mod Normal
