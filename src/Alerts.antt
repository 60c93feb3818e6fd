-- ===== src/Alerts.antt =====
-- contentops/alerts: alerts from Graph and Sentinel, their merge, the overlay of ARM incidents, the
-- enrichment, and the ledger.
pub mod Model
pub mod Merge
pub mod Indexes
pub mod Joins
pub mod Overlay
pub mod Enrich
pub mod Ledger
pub mod Daily
