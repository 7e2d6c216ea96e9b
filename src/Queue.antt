-- ===== src/Queue.antt =====
-- internal/queue: the port to the transport of recommendation jobs, its disabled implementation,
-- the in-memory double of internal/queue/queuetest, and the configuration of the transport.
pub mod Client
pub mod Config
pub mod Fake
