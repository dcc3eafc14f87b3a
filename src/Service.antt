-- ===== src/Service.antt =====
-- The service's submissions (service/api/ingestions.py).
pub mod Ingestions
pub mod Samples
