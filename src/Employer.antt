-- ===== src/Employer.antt =====
-- internal/employer: the profile that makes a user an employer.
pub mod Models
pub mod Repo
pub mod Service
pub mod Exclusive
pub mod RoundTrip
