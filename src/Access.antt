-- ===== src/Access.antt =====
-- Accounts and their access: tokens, profiles and API keys (Services/Auth, User and Merchant).
pub mod Tokens
pub mod Rotation
pub mod Requests
pub mod Once
pub mod Profile
pub mod Login
pub mod Keys
pub mod Signature
pub mod Roles
pub mod Inserts
pub mod Registration
pub mod Privacy
