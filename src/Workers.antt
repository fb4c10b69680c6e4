-- ===== src/Workers.antt =====
-- app/workers: the Celery tasks, each in a session of its own.
pub mod Reconciliation
pub mod Webhooks
pub mod Tasks
