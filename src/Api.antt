-- ===== src/Api.antt =====
-- app/api/v1: the endpoints.
pub mod Webhooks
pub mod Admin
pub mod Customer
