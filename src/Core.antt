-- ===== src/Core.antt =====
-- app/core: the exceptions that services raise and the settings that they read.
pub mod Errors
pub mod Config
pub mod Security
pub mod Deps
