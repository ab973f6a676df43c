-- ===== src/Queue.antt =====
-- internal/notifyqueue: the jobs of the asynchronous delivery queue, and its worker.
pub mod Job
pub mod Worker
pub mod Outcomes
