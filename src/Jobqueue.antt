-- ===== src/Jobqueue.antt =====
-- The package jobqueue: the envelope of a task, how it is enqueued, and how a worker unwraps it.
pub mod Json
pub mod Envelope
pub mod Enqueue
pub mod Worker
pub mod QueueMetrics
pub mod Services
mod Tests
