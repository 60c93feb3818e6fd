-- ===== src/Http.antt =====
-- contentops/utils/http_retry.py: retries and pagination for the ARM and Graph clients.
pub mod Retry
pub mod Paginate
