-- ===== src/Scoring.antt =====
-- internal/scoring: the levels of the domain, the pairs to evaluate, their validation, the results,
-- and the port that an implementation of scoring fills.
pub mod Levels
pub mod Models
pub mod Validate
pub mod Scorer
