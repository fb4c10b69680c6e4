-- ===== src/Accounts.antt =====
-- Bank accounts of users (Repositories/BankAccount, Services/BankAccounts): the default account.
pub mod Default
pub mod Promotion
pub mod Steps
