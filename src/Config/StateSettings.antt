-- ===== src/Config/StateSettings.antt =====
-- internal/config/config.go: the settings of the NATS state backend, which are derived.
use malert.Base.{Text, codes, Bool, true, false, List, [], ◌∷◌}
use malert.Config.Service.{Config}
use malert.Config.Defaults.{default_nats_url, normalize_nats_urls}

-- `NATSStateConfig`.
pub record NatsStateConfig : Type 0 where
  pub url : List Text
  pub tick_bucket : Text
  pub data_bucket : Text
  pub delete_consumer_name : Text
  pub delete_deliver_group : Text
  pub delete_subject_wildcard : Text
  pub enable_delete_consumer : Bool
  pub allow_create_buckets : Bool
  pub resolve_reason_by_ttl_only : Bool

-- The configured URLs, or the default one.
abbrev urls_or_default : List Text → List Text
urls_or_default [] = default_nats_url
urls_or_default (u ∷ us) = u ∷ us

-- `DeriveStateNATSConfig`.
unfoldable pub derive_state_nats_config : Config → NatsStateConfig
derive_state_nats_config cfg = record {
  url = urls_or_default (normalize_nats_urls cfg.ingest.nats.url);
  tick_bucket = codes "tick";
  data_bucket = codes "data";
  delete_consumer_name = codes "alerting-resolve";
  delete_deliver_group = codes "alerting-resolve";
  delete_subject_wildcard = codes "$KV.tick.>";
  enable_delete_consumer = true;
  allow_create_buckets = true;
  resolve_reason_by_ttl_only = false;
}
