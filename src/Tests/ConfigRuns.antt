-- ===== src/Tests/ConfigRuns.antt =====
-- The theorem on validated configurations at a concrete one.
use malert.Tests.QueueRuns.{sample_queue}
use malert.Tests.Worlds.{plain_unicode}
use malert.Tests.EngineRuns.{valid_rule}
use malert.Base.{
  All, codes, refl, ◌≢◌, true, false, none, [], ◌∷◌, leb_i64, ltb_i64, text_eq, is_space,
  trim_space, is_empty, ascii_lower, to_lower, has_prefix, ◌≡◌, ◌↔◌, not, ◌&&◌, arith,
}
use malert.Config.Service.{LogSinkConfig, Config}
use malert.Config.ValidateConfig.{Parsers, validate_config, queue_checks}
use malert.Config.Channels.{no_retry}
use malert.Config.ValidConfig.{HasUniqueNames, IsDeliverable, validate_config-IsDeliverable}
use malert.Config.Notify.{TrackerActionConfig, TrackerNotifier, NotifyConfig}
use malert.Config.Checks.{first_failing}
use malert.Config.Defaults.{default_nats_max_deliver, normalize_ui_base_path, queue_defaults}
use malert.Config.QueueLimits.{queue_defaults-queue_checks}

abbrev sample_parsers : Parsers
sample_parsers = record {
  unicode = plain_unicode;
  parses_template = λ text. true;
  parse_url = λ text. none;
  compile_regexp = λ text. none;
  compile_wildcard = λ text. none;
}

abbrev pub no_action : TrackerActionConfig
no_action = record {
  method = [];
  path = [];
  headers = [];
  body_template = [];
  success_status = [];
  ref_json_path = [];
}

abbrev pub no_tracker : TrackerNotifier
no_tracker = record {
  enabled = false;
  base_url = [];
  timeout_sec = 0;
  auth = record { kind = []; username = []; password = []; token = []; header = []; prefix = [] };
  create = no_action;
  resolve = no_action;
  retry = no_retry;
  name_template = [];
}

abbrev pub sample_notify : NotifyConfig
sample_notify = record {
  repeat = true;
  repeat_every_sec = 300;
  repeat_on = [];
  repeat_per_channel = false;
  on_pending = false;
  queue = sample_queue;
  telegram = record {
    enabled = true;
    bot_token = codes "t";
    chat_id = codes "1";
    active_chat_id = [];
    api_base = [];
    retry = no_retry;
    name_template = record { name = codes "Plain"; message = codes "alert" } ∷ [];
  };
  http = record {
    enabled = false;
    url = [];
    method = [];
    timeout_sec = 10;
    headers = [];
    retry = no_retry;
    name_template = [];
  };
  mattermost = record {
    enabled = false;
    base_url = [];
    bot_token = [];
    channel_id = [];
    active_channel_id = [];
    timeout_sec = 10;
    retry = no_retry;
    name_template = [];
  };
  jira = no_tracker;
  youtrack = no_tracker;
}

abbrev no_sink : LogSinkConfig
no_sink = record { enabled = false; level = []; format = []; path = [] }

abbrev pub sample_config : Config
sample_config = record {
  service = record {
    name = codes "malert";
    mode = codes "single";
    reload_enabled = false;
    reload_interval_sec = 5;
    resolve_scan_interval = 1;
    runtime_state_idle_sec = 0;
    runtime_state_max = 0;
  };
  log = record { console = no_sink; file = no_sink };
  ingest = record {
    http = record {
      enabled = true;
      listen = codes ":8080";
      health_path = codes "/healthz";
      ready_path = codes "/readyz";
      ingest_path = codes "/ingest";
      max_body_bytes = 0;
    };
    nats = record {
      enabled = false;
      url = [];
      subject = [];
      stream = [];
      consumer_name = [];
      deliver_group = [];
      workers = 0;
      ack_wait_sec = 0;
      nack_delay_ms = 0;
      max_deliver = 0;
      max_ack_pending = 0;
    };
  };
  notify = sample_notify;
  ui = record {
    enabled = false;
    listen = codes ":8090";
    base_path = codes "/ui";
    refresh_sec = 2;
    auth = record { basic = record { enabled = false; username = []; password = [] } };
    nats = record {
      url = [];
      registry_bucket = codes "ui_registry";
      registry_ttl_sec = 30;
      stale_after_sec = 10;
      offline_after_sec = 20;
    };
    health = record { timeout_sec = 2 };
    service = record { public_base_url = [] };
  };
  rule = valid_rule ∷ [];
}

validate_config-IsDeliverable_example :
    (sample_config.rule ≢ [])
    × HasUniqueNames sample_config.rule
    × All (IsDeliverable plain_unicode sample_notify) sample_config.rule
unfolding validate_config text_eq is_empty to_lower trim_space is_space ascii_lower ltb_i64 leb_i64
validate_config-IsDeliverable_example =
    validate_config-IsDeliverable sample_parsers sample_config sample_config refl

queue_defaults-queue_checks_example :
    (first_failing (queue_checks (queue_defaults [] sample_queue)) ≡ none) ↔ (
      ((sample_queue.enabled && ltb_i64 sample_queue.max_deliver default_nats_max_deliver) ≡ false)
      × ((sample_queue.dlq && not sample_queue.enabled) ≡ false))
queue_defaults-queue_checks_example = queue_defaults-queue_checks [] sample_queue (omega arith)

double_slash_base_path : normalize_ui_base_path (codes "//") ≡ []
unfolding normalize_ui_base_path trim_space is_space is_empty text_eq has_prefix
double_slash_base_path = refl

rooted_base_path : normalize_ui_base_path (codes " ops/ ") ≡ codes "/ops"
unfolding normalize_ui_base_path trim_space is_space is_empty text_eq has_prefix
rooted_base_path = refl
