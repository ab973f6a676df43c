-- ===== src/Config/MergeNotify.antt =====
-- internal/config/config.go: the merge of the sections notify and ui.
use malert.Base.{Bool, Option, if◌then◌else◌}
use malert.Config.Service.{UiConfig}
use malert.Config.Merge.{
  replace_slice, append_slice, apply_bool_merge, apply_bool_hint_merge, merge_string,
  merge_non_zero_int, merge_string_map, merge_retry, has_auth,
}
use malert.Config.Notify.{
  NotifyQueue, TelegramNotifier, HttpNotifier, MattermostConfig, TrackerActionConfig,
  TrackerNotifier, NotifyConfig,
}
use malert.Config.Explicit.{QueueMergeHints, NotifyMergeHints, UiMergeHints}

-- `mergeNotifyQueue`.
unfoldable pub merge_notify_queue : NotifyQueue → NotifyQueue → QueueMergeHints → NotifyQueue
unfolding apply_bool_merge merge_non_zero_int
merge_notify_queue dst src hints = record dst {
  enabled = apply_bool_merge dst.enabled src.enabled hints.enabled;
  ack_wait_sec = merge_non_zero_int dst.ack_wait_sec src.ack_wait_sec;
  nack_delay_ms = merge_non_zero_int dst.nack_delay_ms src.nack_delay_ms;
  max_deliver = merge_non_zero_int dst.max_deliver src.max_deliver;
  max_ack_pending = merge_non_zero_int dst.max_ack_pending src.max_ack_pending;
  dlq = apply_bool_merge dst.dlq src.dlq hints.dlq;
}

-- `mergeTelegramNotifier`.
unfoldable pub merge_telegram_notifier :
    TelegramNotifier → TelegramNotifier → Option Bool → TelegramNotifier
unfolding apply_bool_merge merge_string merge_retry append_slice
merge_telegram_notifier dst src hint = record {
  enabled = apply_bool_merge dst.enabled src.enabled hint;
  bot_token = merge_string dst.bot_token src.bot_token;
  chat_id = merge_string dst.chat_id src.chat_id;
  active_chat_id = merge_string dst.active_chat_id src.active_chat_id;
  api_base = merge_string dst.api_base src.api_base;
  retry = merge_retry dst.retry src.retry;
  name_template = append_slice dst.name_template src.name_template;
}

-- `mergeHTTPNotifier`.
unfoldable pub merge_http_notifier : HttpNotifier → HttpNotifier → Option Bool → HttpNotifier
unfolding apply_bool_merge merge_string merge_non_zero_int merge_string_map merge_retry append_slice
merge_http_notifier dst src hint = record {
  enabled = apply_bool_merge dst.enabled src.enabled hint;
  url = merge_string dst.url src.url;
  method = merge_string dst.method src.method;
  timeout_sec = merge_non_zero_int dst.timeout_sec src.timeout_sec;
  headers = merge_string_map dst.headers src.headers;
  retry = merge_retry dst.retry src.retry;
  name_template = append_slice dst.name_template src.name_template;
}

-- `mergeMattermostNotifier`.
unfoldable pub merge_mattermost_notifier :
    MattermostConfig → MattermostConfig → Option Bool → MattermostConfig
unfolding apply_bool_merge merge_string merge_non_zero_int merge_retry append_slice
merge_mattermost_notifier dst src hint = record {
  enabled = apply_bool_merge dst.enabled src.enabled hint;
  base_url = merge_string dst.base_url src.base_url;
  bot_token = merge_string dst.bot_token src.bot_token;
  channel_id = merge_string dst.channel_id src.channel_id;
  active_channel_id = merge_string dst.active_channel_id src.active_channel_id;
  timeout_sec = merge_non_zero_int dst.timeout_sec src.timeout_sec;
  retry = merge_retry dst.retry src.retry;
  name_template = append_slice dst.name_template src.name_template;
}

-- `mergeTrackerActionConfig`.
unfoldable pub merge_tracker_action_config :
    TrackerActionConfig → TrackerActionConfig → TrackerActionConfig
unfolding merge_string merge_string_map replace_slice
merge_tracker_action_config dst src = record {
  method = merge_string dst.method src.method;
  path = merge_string dst.path src.path;
  headers = merge_string_map dst.headers src.headers;
  body_template = merge_string dst.body_template src.body_template;
  success_status = replace_slice dst.success_status src.success_status;
  ref_json_path = merge_string dst.ref_json_path src.ref_json_path;
}

-- `mergeTrackerNotifier`.
unfoldable pub merge_tracker_notifier :
    TrackerNotifier → TrackerNotifier → Option Bool → TrackerNotifier
unfolding apply_bool_merge merge_string merge_non_zero_int has_auth merge_tracker_action_config
    merge_retry append_slice
merge_tracker_notifier dst src hint = record {
  enabled = apply_bool_merge dst.enabled src.enabled hint;
  base_url = merge_string dst.base_url src.base_url;
  timeout_sec = merge_non_zero_int dst.timeout_sec src.timeout_sec;
  auth = if has_auth src.auth then src.auth else dst.auth;
  create = merge_tracker_action_config dst.create src.create;
  resolve = merge_tracker_action_config dst.resolve src.resolve;
  retry = merge_retry dst.retry src.retry;
  name_template = append_slice dst.name_template src.name_template;
}

-- `mergeNotifyConfig`.
unfoldable pub merge_notify_config : NotifyConfig → NotifyConfig → NotifyMergeHints → NotifyConfig
unfolding apply_bool_merge merge_non_zero_int replace_slice merge_notify_queue
    merge_telegram_notifier merge_http_notifier merge_mattermost_notifier merge_tracker_notifier
merge_notify_config dst src hints = record {
  repeat = apply_bool_merge dst.repeat src.repeat hints.repeat;
  repeat_every_sec = merge_non_zero_int dst.repeat_every_sec src.repeat_every_sec;
  repeat_on = replace_slice dst.repeat_on src.repeat_on;
  repeat_per_channel =
      apply_bool_merge dst.repeat_per_channel src.repeat_per_channel hints.repeat_per_channel;
  on_pending = apply_bool_merge dst.on_pending src.on_pending hints.on_pending;
  queue = merge_notify_queue dst.queue src.queue hints.queue;
  telegram = merge_telegram_notifier dst.telegram src.telegram hints.telegram;
  http = merge_http_notifier dst.http src.http hints.http;
  mattermost = merge_mattermost_notifier dst.mattermost src.mattermost hints.mattermost;
  jira = merge_tracker_notifier dst.jira src.jira hints.jira;
  youtrack = merge_tracker_notifier dst.youtrack src.youtrack hints.youtrack;
}

-- `mergeUIConfig`.
unfoldable pub merge_ui_config : UiConfig → UiConfig → UiMergeHints → UiConfig
unfolding apply_bool_hint_merge merge_string merge_non_zero_int replace_slice
merge_ui_config dst src hints = record {
  enabled = apply_bool_hint_merge dst.enabled hints.enabled;
  listen = merge_string dst.listen src.listen;
  base_path = merge_string dst.base_path src.base_path;
  refresh_sec = merge_non_zero_int dst.refresh_sec src.refresh_sec;
  auth = record {
    basic = record {
      enabled = apply_bool_hint_merge dst.auth.basic.enabled hints.basic_enabled;
      username = merge_string dst.auth.basic.username src.auth.basic.username;
      password = merge_string dst.auth.basic.password src.auth.basic.password;
    };
  };
  nats = record {
    url = replace_slice dst.nats.url src.nats.url;
    registry_bucket = merge_string dst.nats.registry_bucket src.nats.registry_bucket;
    registry_ttl_sec = merge_non_zero_int dst.nats.registry_ttl_sec src.nats.registry_ttl_sec;
    stale_after_sec = merge_non_zero_int dst.nats.stale_after_sec src.nats.stale_after_sec;
    offline_after_sec = merge_non_zero_int dst.nats.offline_after_sec src.nats.offline_after_sec;
  };
  health = record {
    timeout_sec = merge_non_zero_int dst.health.timeout_sec src.health.timeout_sec;
  };
  service = record {
    public_base_url = merge_string dst.service.public_base_url src.service.public_base_url;
  };
}
