-- ===== src/Ingest.antt =====
-- internal/ingest: events that come in over HTTP and NATS are decoded, validated and pushed to a
-- sink.
pub mod Codec
pub mod Http
pub mod Nats
pub mod Subscriber
pub mod Validated
pub mod Accepted
pub mod Pool
