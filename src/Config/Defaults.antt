-- ===== src/Config/Defaults.antt =====
-- internal/config/config.go: the values that an unset setting gets, `applyDefaults`.
use mathlib.Core.List.{reverse}
use malert.Base.{
  ◌==◌, Int64, Text, codes, text_eq, trim_space, is_empty, has_prefix, Unicode, Bool, true, false,
  not, ◌||◌, List, [], ◌∷◌, map, if◌then◌else◌,
}
use malert.Config.Service.{
  ServiceConfig, HttpIngestConfig, NatsIngestConfig, IngestConfig, LogConfig, UiConfig, Config,
}
use malert.Config.Rule.{RuleConfig}
use malert.Config.ValidateRule.{is_none_of}
use malert.Config.Checks.{is_nonpositive, is_negative}
use malert.Config.Channels.{service_mode_nats, service_mode_single, or_else, normalize_service_mode}
use malert.Config.Notify.{
  NotifyRetry, NotifyQueue, TrackerActionConfig, TrackerNotifier, NotifyConfig,
}
use malert.Config.ValidateNotify.{is_blank}

-- A setting that is at most 0, or is 0, gets a default.
abbrev pub positive_or : Int64 → Int64 → Int64
positive_or n default_value = if is_nonpositive n then default_value else n

abbrev pub nonzero_or : Int64 → Int64 → Int64
nonzero_or n default_value = if n == 0 then default_value else n

-- `< 0` becomes 0, and then 0 the default.
abbrev pub delay_or : Int64 → Int64 → Int64
delay_or n default_value = nonzero_or (if is_negative n then 0 else n) default_value

abbrev pub text_or : Text → Text → Text
text_or s default_value = if is_blank s then default_value else s

-- -1, for deliveries without a limit.
abbrev pub default_nats_max_deliver : Int64
default_nats_max_deliver = 18446744073709551615

abbrev pub default_nats_url : List Text
default_nats_url = codes "nats://127.0.0.1:4222" ∷ []

-- `fillNotifyRetryDefaults`.
unfoldable pub fill_notify_retry_defaults : NotifyRetry → NotifyRetry
fill_notify_retry_defaults retry = record retry {
  backoff = or_else retry.backoff (codes "exponential");
  initial_ms = positive_or retry.initial_ms 500;
  max_ms = positive_or retry.max_ms 60000;
}

-- `fillTrackerActionDefaults`.
unfoldable pub fill_tracker_action_defaults : TrackerActionConfig → Bool → TrackerActionConfig
fill_tracker_action_defaults action is_create = record action {
  method = text_or action.method (codes "POST");
  success_status =
      if is_none_of action.success_status
      then 200 ∷ (if is_create then 201 else 204) ∷ []
      else action.success_status;
}

-- `fillTrackerNotifierDefaults`.
unfoldable pub fill_tracker_notifier_defaults : TrackerNotifier → TrackerNotifier
unfolding fill_tracker_action_defaults fill_notify_retry_defaults
fill_tracker_notifier_defaults cfg = record cfg {
  timeout_sec = positive_or cfg.timeout_sec 10;
  retry = fill_notify_retry_defaults cfg.retry;
  create = fill_tracker_action_defaults cfg.create true;
  resolve = fill_tracker_action_defaults cfg.resolve false;
}

-- `normalizeNATSURLs`, and the default where nothing is left.
abbrev pub normalize_nats_urls : List Text → List Text
normalize_nats_urls urls = map trim_space urls

abbrev pub urls_or : List Text → List Text → List Text
urls_or urls default_value = if is_none_of urls then default_value else urls

-- strings.TrimRight(path, "/").
unfoldable pub drop_slashes : Text → Text
drop_slashes [] = []
drop_slashes (c ∷ s) = let rest = drop_slashes s in if c == b'/' then rest else c ∷ s

-- `normalizeUIBasePath`.
unfoldable pub normalize_ui_base_path : Text → Text
unfolding drop_slashes
normalize_ui_base_path path =
    let trimmed = trim_space path in
    let rooted = if has_prefix trimmed (b'/' ∷ []) then trimmed else b'/' ∷ trimmed in
    if is_empty trimmed
    then codes "/ui"
    else if text_eq rooted (b'/' ∷ [])
    then rooted
    else reverse (drop_slashes (reverse rooted))

abbrev pub service_defaults : Unicode → ServiceConfig → ServiceConfig
service_defaults u service = record service {
  name = text_or service.name (codes "alerting");
  mode = normalize_service_mode u service.mode;
  reload_interval_sec = positive_or service.reload_interval_sec 5;
  resolve_scan_interval = positive_or service.resolve_scan_interval 1;
}

abbrev pub log_defaults : LogConfig → LogConfig
log_defaults log = record {
  console = record log.console {
    level = or_else log.console.level (codes "info");
    format = or_else log.console.format (codes "line");
    enabled = log.console.enabled || not log.file.enabled;
  };
  file = record log.file {
    level = or_else log.file.level (codes "info");
    format = or_else log.file.format (codes "json");
  };
}

abbrev pub http_ingest_defaults : HttpIngestConfig → HttpIngestConfig
http_ingest_defaults http = record http {
  listen = text_or http.listen (codes ":8080");
  health_path = text_or http.health_path (codes "/healthz");
  ready_path = text_or http.ready_path (codes "/readyz");
  ingest_path = text_or http.ingest_path (codes "/ingest");
  max_body_bytes = positive_or http.max_body_bytes 2097152;
}

-- The ingest.nats settings of a mode with NATS.
abbrev pub nats_ingest_defaults : NatsIngestConfig → NatsIngestConfig
nats_ingest_defaults nats = record nats {
  url = urls_or (normalize_nats_urls nats.url) default_nats_url;
  subject = codes "alerting.events";
  stream = codes "ALERTING_EVENTS";
  consumer_name = codes "alerting-ingest";
  deliver_group = codes "alerting-workers";
  workers = nonzero_or nats.workers 1;
  ack_wait_sec = positive_or nats.ack_wait_sec 30;
  nack_delay_ms = delay_or nats.nack_delay_ms 1000;
  max_deliver = nonzero_or nats.max_deliver default_nats_max_deliver;
  max_ack_pending = positive_or nats.max_ack_pending 2048;
}

-- The ingest section; the flag says whether the mode is `single`.
abbrev pub ingest_defaults : Bool → IngestConfig → IngestConfig
ingest_defaults true ingest = record {
  http = http_ingest_defaults ingest.http;
  nats = record ingest.nats { enabled = false };
}
ingest_defaults false ingest = record {
  http = record (http_ingest_defaults ingest.http) {
    enabled = ingest.http.enabled || not ingest.nats.enabled;
  };
  nats = nats_ingest_defaults ingest.nats;
}

-- The queue in a mode with NATS, which uses its URLs.
unfoldable pub queue_defaults : List Text → NotifyQueue → NotifyQueue
queue_defaults urls queue = record queue {
  url = urls;
  ack_wait_sec = positive_or queue.ack_wait_sec 30;
  nack_delay_ms = delay_or queue.nack_delay_ms 1000;
  max_deliver = nonzero_or queue.max_deliver default_nats_max_deliver;
  max_ack_pending = positive_or queue.max_ack_pending 2048;
}

-- The queue in the normalized mode: off in `single`, with defaults in `nats`, and without URLs in
-- any other, which the validation refuses.
unfoldable pub mode_queue : Text → List Text → NotifyQueue → NotifyQueue
unfolding queue_defaults
mode_queue mode urls queue =
    if text_eq mode service_mode_single
    then record queue { enabled = false; dlq = false; url = [] }
    else if text_eq mode service_mode_nats
    then queue_defaults urls queue
    else record queue { url = [] }

-- The notify section, after its queue.
unfoldable pub notify_defaults : NotifyConfig → NotifyConfig
unfolding fill_notify_retry_defaults fill_tracker_notifier_defaults
notify_defaults notify = record notify {
  repeat_every_sec = positive_or notify.repeat_every_sec 300;
  repeat_on = urls_or notify.repeat_on (codes "firing" ∷ []);
  telegram = record notify.telegram {
    api_base = or_else notify.telegram.api_base (codes "https://api.telegram.org");
    retry = fill_notify_retry_defaults notify.telegram.retry;
  };
  http = record notify.http {
    method = or_else notify.http.method (codes "POST");
    timeout_sec = positive_or notify.http.timeout_sec 10;
    retry = fill_notify_retry_defaults notify.http.retry;
  };
  mattermost = record notify.mattermost {
    timeout_sec = positive_or notify.mattermost.timeout_sec 10;
    retry = fill_notify_retry_defaults notify.mattermost.retry;
  };
  jira = fill_tracker_notifier_defaults notify.jira;
  youtrack = fill_tracker_notifier_defaults notify.youtrack;
}

-- The ui section, with the URLs of ingest.nats.
unfoldable pub ui_defaults : List Text → UiConfig → UiConfig
unfolding normalize_ui_base_path
ui_defaults ingest_urls ui = record ui {
  listen = text_or ui.listen (codes ":8090");
  base_path = normalize_ui_base_path ui.base_path;
  refresh_sec = positive_or ui.refresh_sec 2;
  nats = record ui.nats {
    url = urls_or (normalize_nats_urls ui.nats.url) (urls_or ingest_urls default_nats_url);
    registry_bucket = text_or ui.nats.registry_bucket (codes "ui_registry");
    registry_ttl_sec = positive_or ui.nats.registry_ttl_sec 30;
    stale_after_sec = positive_or ui.nats.stale_after_sec 10;
    offline_after_sec = positive_or ui.nats.offline_after_sec 20;
  };
  health = record { timeout_sec = positive_or ui.health.timeout_sec 2 };
}

abbrev pub rule_defaults : Int64 → RuleConfig → RuleConfig
rule_defaults repeat_every_sec rule = record rule {
  pending = record rule.pending { delay_sec = positive_or rule.pending.delay_sec 300 };
  notify = record rule.notify {
    repeat_every_sec = positive_or rule.notify.repeat_every_sec repeat_every_sec;
  };
}

-- `applyDefaults`.
unfoldable pub apply_defaults : Unicode → Config → Config
unfolding normalize_service_mode mode_queue notify_defaults ui_defaults
apply_defaults u cfg =
    let service = service_defaults u cfg.service in
    let ingest = ingest_defaults (text_eq service.mode service_mode_single) cfg.ingest in
    let queue = mode_queue service.mode ingest.nats.url cfg.notify.queue in
    let notify = notify_defaults (record cfg.notify { queue = queue }) in
    record cfg {
      service = service;
      log = log_defaults cfg.log;
      ingest = ingest;
      notify = notify;
      ui = ui_defaults ingest.nats.url cfg.ui;
      rule = map (rule_defaults notify.repeat_every_sec) cfg.rule;
    }
