-- ===== src/Auth.antt =====
-- src/modules/auth: sign-up, sign-in, sessions, refresh tokens, verification codes and passwords.
pub mod Tokens
pub mod History
pub mod Passwords
pub mod Verification
pub mod Sessions
pub mod Signin
pub mod Refresh
pub mod Account
pub mod Handlers
