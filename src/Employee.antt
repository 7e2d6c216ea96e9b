-- ===== src/Employee.antt =====
-- internal/employee: the writes of the five steps of a profile, with the files of its forms, who may
-- read the profile of an employee and its files, and when a change of a profile asks for recommendations.
pub mod Files
pub mod Writes
pub mod Form
pub mod Stored
pub mod Education
pub mod Steps
pub mod Certifications
pub mod Models
pub mod Repo
pub mod Access
pub mod Profile
pub mod Delivery
pub mod Events
