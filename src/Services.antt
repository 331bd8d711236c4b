-- ===== src/Services.antt =====
-- src/rescs/services: what the service layer shares, and the services.
pub mod Common
pub mod Audit
pub mod Keeps
pub mod Triples
pub mod Expiry
pub mod Records
pub mod Files
pub mod Uploads
