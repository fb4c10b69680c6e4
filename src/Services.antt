-- ===== src/Services.antt =====
-- app/services: the operations that move money, method by method.
pub mod Fraud
pub mod Audit
pub mod Locking
pub mod Posting
pub mod Transfer
pub mod WebhookDelivery
pub mod MerchantPayment
pub mod PaystackWebhook
pub mod Withdrawal
pub mod Wallet
pub mod WalletFunding
pub mod BankAccounts
pub mod Auth
pub mod Merchant
pub mod Kyc
pub mod User
pub mod Transaction
