-- ===== src/Authority.antt =====
-- workflow-kernel/authority-policy.js: what a run may do, and what each of its lanes may do.
pub mod Pattern
pub mod Narrow
pub mod Narrowing
pub mod Run
pub mod Launch
pub mod DrainMode
pub mod Tools
pub mod Lane
pub mod Rules
pub mod Decisions
pub mod Enforcement
pub mod LaneRules
