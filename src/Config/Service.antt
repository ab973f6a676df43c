-- ===== src/Config/Service.antt =====
-- internal/config/config.go: the sections of a configuration besides its rules and channels.
use malert.Base.{Int64, Text, Bool, List}
use malert.Config.Rule.{RuleConfig}
use malert.Config.Notify.{NotifyConfig}

pub record ServiceConfig : Type 0 where
  pub name : Text
  pub mode : Text
  pub reload_enabled : Bool
  pub reload_interval_sec : Int64
  pub resolve_scan_interval : Int64
  pub runtime_state_idle_sec : Int64
  pub runtime_state_max : Int64

pub record HttpIngestConfig : Type 0 where
  pub enabled : Bool
  pub listen : Text
  pub health_path : Text
  pub ready_path : Text
  pub ingest_path : Text
  pub max_body_bytes : Int64

pub record NatsIngestConfig : Type 0 where
  pub enabled : Bool
  pub url : List Text
  pub subject : Text
  pub stream : Text
  pub consumer_name : Text
  pub deliver_group : Text
  pub workers : Int64
  pub ack_wait_sec : Int64
  pub nack_delay_ms : Int64
  pub max_deliver : Int64
  pub max_ack_pending : Int64

pub record IngestConfig : Type 0 where
  pub http : HttpIngestConfig
  pub nats : NatsIngestConfig

pub record LogSinkConfig : Type 0 where
  pub enabled : Bool
  pub level : Text
  pub format : Text
  pub path : Text

pub record LogConfig : Type 0 where
  pub console : LogSinkConfig
  pub file : LogSinkConfig

pub record UiBasicAuthConfig : Type 0 where
  pub enabled : Bool
  pub username : Text
  pub password : Text

pub record UiAuthConfig : Type 0 where
  pub basic : UiBasicAuthConfig

pub record UiNatsConfig : Type 0 where
  pub url : List Text
  pub registry_bucket : Text
  pub registry_ttl_sec : Int64
  pub stale_after_sec : Int64
  pub offline_after_sec : Int64

pub record UiHealthConfig : Type 0 where
  pub timeout_sec : Int64

pub record UiServiceConfig : Type 0 where
  pub public_base_url : Text

pub record UiConfig : Type 0 where
  pub enabled : Bool
  pub listen : Text
  pub base_path : Text
  pub refresh_sec : Int64
  pub auth : UiAuthConfig
  pub nats : UiNatsConfig
  pub health : UiHealthConfig
  pub service : UiServiceConfig

pub record Config : Type 0 where
  pub service : ServiceConfig
  pub log : LogConfig
  pub ingest : IngestConfig
  pub notify : NotifyConfig
  pub ui : UiConfig
  pub rule : List RuleConfig
