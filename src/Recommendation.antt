-- ===== src/Recommendation.antt =====
-- internal/recommendation: the batches of recommendations of a subject, from the request that opens
-- one to the worker that closes it and the queries that read its result.
pub mod Models
pub mod Repo
pub mod Candidates
pub mod Events
pub mod Worker
pub mod Publisher
pub mod Service
pub mod Pagination
pub mod Owners
pub mod Listings
