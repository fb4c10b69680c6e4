-- ===== src/Repositories.antt =====
-- app/repositories: the reads and writes of each table. A repository's method that writes flushes:
-- the session sees the write, and COMMIT makes it durable.
pub mod Wallet
pub mod Transaction
pub mod Ledger
pub mod Fraud
pub mod People
pub mod WebhookDelivery
pub mod BankAccount
pub mod Auth
pub mod User
pub mod Merchant
pub mod Kyc
pub mod Listing
pub mod AuditLog
