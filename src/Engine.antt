-- ===== src/Engine.antt =====
-- internal/engine: rule evaluation.
pub mod State
pub mod Key
pub mod Matcher
pub mod Active
pub mod Process
pub mod Window
pub mod Tick
pub mod Compact
pub mod Invariant
pub mod Identity
pub mod Lifecycle
pub mod Ticks
pub mod Counting
pub mod Eviction
pub mod Limit
pub mod Firing
pub mod Timing
pub mod Reachable
pub mod Access
pub mod Run
pub mod Matching
