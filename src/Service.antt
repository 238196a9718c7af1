-- ===== src/Service.antt =====
-- The service package: the payload of a job, the tasks of the queue, the poller of the outbox and
-- the processor of the tasks.
pub mod JobPayload
pub mod Idempotency
pub mod Task
pub mod Token
pub mod Poller
pub mod Processor
