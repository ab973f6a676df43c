-- ===== src/Manager.antt =====
-- internal/app: the manager, which runs the rules, stores the cards and sends notifications.
pub mod Notice
pub mod Routes
pub mod App
pub mod Cards
pub mod Delivery
pub mod Decisions
pub mod Closing
pub mod Passes
pub mod Rules
pub mod Sendable
pub mod Chain
pub mod Writes
pub mod Resolved
pub mod Quiet
pub mod Settled
pub mod Expiry
pub mod Refs
