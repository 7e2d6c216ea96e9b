-- ===== src/Database.antt =====
-- The PostgreSQL database behind internal/database: the tables of sql/schema that the
-- recommendation back end reads and writes, and the statements of sql/queries/recommendations.sql.
pub mod Schema
pub mod Connection
pub mod Batches
mod Consistency
pub mod Preservation
pub mod Profiles
pub mod InFlight
pub mod Closing
pub mod Triples
pub mod Outcomes
pub mod Total
pub mod Refusal
pub mod Opening
pub mod Listings
pub mod JobPositions
pub mod Employers
pub mod Employees
pub mod Files
pub mod Users
pub mod Tokens
