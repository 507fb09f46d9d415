-- ===== src/Tests.antt =====
-- Concrete runs, and the properties applied to them.
mod Budget
mod Agents
mod Authority
mod Lane
mod Ledger
mod Drain
mod Resume
mod Integration
mod Launch
mod Stores
mod Toasts
mod Truncation
mod Apply
mod Auto
mod Paths
mod Retries
mod Json
mod Notified
