-- ===== src/User.antt =====
-- internal/user: the accounts, and how they log in.
pub mod Repo
pub mod Service
pub mod Denied
pub mod Login
pub mod Registered
pub mod Unique
