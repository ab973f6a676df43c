-- ===== src/Config/MergeFiles.antt =====
-- internal/config/config.go: `mergeConfig`, which lays one file over those before it, section by
-- section.
use malert.Base.{◌==◌, is_empty, Bool, not, ◌||◌, [], ◌∷◌, if◌then◌else◌}
use malert.Config.Service.{
  ServiceConfig, HttpIngestConfig, NatsIngestConfig, IngestConfig, LogSinkConfig, LogConfig,
  UiConfig, Config,
}
use malert.Config.Explicit.{
  NotifyMergeHints, UiMergeHints, notify_has_explicit_bool, ui_has_explicit_bool, has_notify_config,
  has_ui_config,
}
use malert.Config.Merge.{any_of, has_entries, append_slice}
use malert.Config.MergeNotify.{merge_notify_config, merge_ui_config}
use malert.Config.Notify.{NotifyConfig}
use malert.Config.ValidateNotify.{is_blank}

-- `configMergeHints`.
pub record ConfigMergeHints : Type 0 where
  pub notify : NotifyMergeHints
  pub ui : UiMergeHints

-- `src.Service != (ServiceConfig{})`.
unfoldable pub has_service : ServiceConfig → Bool
unfolding any_of is_empty
has_service s = any_of (
    not (is_empty s.name)
    ∷ not (is_empty s.mode)
    ∷ s.reload_enabled
    ∷ not (s.reload_interval_sec == 0)
    ∷ not (s.resolve_scan_interval == 0)
    ∷ not (s.runtime_state_idle_sec == 0)
    ∷ not (s.runtime_state_max == 0)
    ∷ [])

unfoldable pub has_sink : LogSinkConfig → Bool
unfolding any_of is_empty
has_sink s =
    any_of
      (s.enabled ∷ not (is_empty s.level) ∷ not (is_empty s.format) ∷ not (is_empty s.path) ∷ [])

-- `src.Log != (LogConfig{})`.
unfoldable pub has_log : LogConfig → Bool
unfolding has_sink
has_log l = has_sink l.console || has_sink l.file

-- `hasHTTPIngestConfig`.
unfoldable pub has_http_ingest_config : HttpIngestConfig → Bool
unfolding any_of
has_http_ingest_config cfg = any_of (
    cfg.enabled
    ∷ not (is_blank cfg.listen)
    ∷ not (is_blank cfg.health_path)
    ∷ not (is_blank cfg.ready_path)
    ∷ not (is_blank cfg.ingest_path)
    ∷ not (cfg.max_body_bytes == 0)
    ∷ [])

-- `hasNATSIngestConfig`.
unfoldable pub has_nats_ingest_config : NatsIngestConfig → Bool
unfolding any_of has_entries
has_nats_ingest_config cfg = any_of (
    cfg.enabled
    ∷ has_entries cfg.url
    ∷ not (cfg.workers == 0)
    ∷ not (cfg.ack_wait_sec == 0)
    ∷ not (cfg.nack_delay_ms == 0)
    ∷ not (cfg.max_deliver == 0)
    ∷ not (cfg.max_ack_pending == 0)
    ∷ [])

-- `hasIngestConfig`.
unfoldable pub has_ingest_config : IngestConfig → Bool
unfolding has_http_ingest_config has_nats_ingest_config
has_ingest_config cfg = has_http_ingest_config cfg.http || has_nats_ingest_config cfg.nats

-- The assignment to the section notify in `mergeConfig`.
unfoldable pub merge_notify : NotifyConfig → NotifyConfig → NotifyMergeHints → NotifyConfig
unfolding has_notify_config notify_has_explicit_bool merge_notify_config
merge_notify dst src hints =
    if has_notify_config src || notify_has_explicit_bool hints
    then merge_notify_config dst src hints
    else dst

-- The assignment to the section ui.
unfoldable pub merge_ui : UiConfig → UiConfig → UiMergeHints → UiConfig
unfolding has_ui_config ui_has_explicit_bool merge_ui_config
merge_ui dst src hints =
    if has_ui_config src || ui_has_explicit_bool hints then merge_ui_config dst src hints else dst

-- `mergeConfig`.
unfoldable pub merge_config : Config → Config → ConfigMergeHints → Config
unfolding has_service has_log has_ingest_config merge_notify merge_ui append_slice
merge_config dst src hints = record {
  service = if has_service src.service then src.service else dst.service;
  log = if has_log src.log then src.log else dst.log;
  ingest = if has_ingest_config src.ingest then src.ingest else dst.ingest;
  notify = merge_notify dst.notify src.notify hints.notify;
  ui = merge_ui dst.ui src.ui hints.ui;
  rule = append_slice dst.rule src.rule;
}
