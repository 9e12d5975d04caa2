-- ===== src/ProviderResilience.antt =====
-- The admission of a paid call of a model provider
-- (projects/ai-backend-data-layer/api/day56_provider_resilience.py): a shared rate limiter, a ledger
-- of tenants' budgets, a circuit breaker, the decision of a worker what it may do with the provider,
-- deadlines and the repair of jobs that a bad release expired.
pub mod Delays
pub mod Limiter
pub mod Circuit
pub mod Jobs
pub mod Ledger
pub mod Dispatch
pub mod Repair
pub mod Domains
pub mod Recovery
pub mod Floors
pub mod Deferrals
pub mod Sharing
pub mod Interleavings
pub mod Contracts
pub mod Gates
pub mod Balances
pub mod Deadlines
pub mod Repairs
pub mod Histories
mod Examples
