-- ===== src/DurableJobs.antt =====
-- Durable agent jobs: recovery decisions, the store that applies them, leases and the outbox
-- (projects/ai-agent/src/durable_agent_jobs.py).
pub mod Types
pub mod Records
pub mod Decide
pub mod Store
pub mod Outbox
pub mod Recoveries
pub mod Reservations
pub mod Applied
pub mod Histories
pub mod Leases
pub mod Intents
pub mod Examples
