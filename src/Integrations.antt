-- ===== src/Integrations.antt =====
-- app/integrations: what of the clients of outside services is the repository's own logic.
pub mod Storage
