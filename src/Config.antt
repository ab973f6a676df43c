-- ===== src/Config.antt =====
-- internal/config: the sections of a configuration, their defaults, validation and merge.
pub mod Rule
pub mod Notify
pub mod Channels
pub mod OffWindow
pub mod Predicate
pub mod Ready
pub mod Checks
pub mod ValidateRule
pub mod ValidRule
pub mod Service
pub mod ValidateNotify
pub mod ValidateConfig
pub mod ValidConfig
pub mod Defaults
pub mod QueueLimits
pub mod StateSettings
pub mod Merge
pub mod Explicit
pub mod MergeNotify
pub mod MergeFiles
pub mod LoadFiles
pub mod Overlay
pub mod Guards
