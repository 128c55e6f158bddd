-- ===== src/Auth.antt =====
-- internal/api/auth: passwords, one-time codes, and the account that both belong to.
pub mod Password
pub mod Totp
pub mod Account
mod Examples
