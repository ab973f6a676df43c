-- ===== src/Tests.antt =====
-- Concrete rules, events and states, and the theorems applied to them.
mod Data
mod EngineRuns
mod StoreRuns
mod Worlds
mod ManagerRuns
mod QueueRuns
mod ConfigRuns
mod SenderRuns
mod IngestRuns
mod BucketRuns
mod MergeRuns
mod ReloadRuns
