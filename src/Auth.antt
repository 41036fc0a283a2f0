-- ===== src/Auth.antt =====
-- Authentication (app/core/auth): the refresh tokens (Tokens) and
-- the one-time passwords (Mobile, Otp).
pub mod Tokens
pub mod Mobile
pub mod Otp
mod Tests
