-- ===== src/Notify.antt =====
-- internal/notify/notify.go: the dispatcher, which renders a notification and sends it with retries,
-- and the senders of the channels.
pub mod Retry
pub mod Schedule
pub mod Attempts
pub mod Dispatcher
pub mod Rejected
pub mod Http
pub mod Telegram
pub mod Mattermost
pub mod Json
pub mod Tracker
pub mod Senders
pub mod Ids
pub mod References
pub mod Refs
