-- ===== src/Config/Explicit.antt =====
-- internal/config/config.go: whether a section of one file sets anything, and the hints about the
-- bools that it sets.
-- `queueMergeHints`.
use malert.Base.{◌==◌, is_some, Bool, not, ◌||◌, Option, [], ◌∷◌, List}
use malert.Config.Service.{UiConfig}
use malert.Config.Merge.{any_of, has_any_string, has_any_non_zero, has_entries, has_retry, has_auth}
use malert.Config.Notify.{
  NotifyQueue, TelegramNotifier, HttpNotifier, MattermostConfig, TrackerActionConfig,
  TrackerNotifier, NotifyConfig,
}

pub record QueueMergeHints : Type 0 where
  pub enabled : Option Bool
  pub dlq : Option Bool

-- `channelMergeHints` has one field, which stands here for it.
pub record NotifyMergeHints : Type 0 where
  pub repeat : Option Bool
  pub repeat_per_channel : Option Bool
  pub on_pending : Option Bool
  pub queue : QueueMergeHints
  pub telegram : Option Bool
  pub http : Option Bool
  pub mattermost : Option Bool
  pub jira : Option Bool
  pub youtrack : Option Bool

-- `uiMergeHints`, with the hint of ui.auth.basic.enabled.
pub record UiMergeHints : Type 0 where
  pub enabled : Option Bool
  pub basic_enabled : Option Bool

-- `hasExplicitBool` of the section notify.
unfoldable pub hint_flags : NotifyMergeHints → List Bool
hint_flags h =
    is_some h.repeat
    ∷ is_some h.repeat_per_channel
    ∷ is_some h.on_pending
    ∷ is_some h.queue.enabled
    ∷ is_some h.queue.dlq
    ∷ is_some h.telegram
    ∷ is_some h.http
    ∷ is_some h.mattermost
    ∷ is_some h.jira
    ∷ is_some h.youtrack
    ∷ []

unfoldable pub notify_has_explicit_bool : NotifyMergeHints → Bool
unfolding any_of hint_flags
notify_has_explicit_bool h = any_of (hint_flags h)

-- `hasExplicitBool` of the section ui.
unfoldable pub ui_has_explicit_bool : UiMergeHints → Bool
ui_has_explicit_bool h = is_some h.enabled || is_some h.basic_enabled

-- `hasTrackerActionConfig`.
unfoldable pub action_flags : TrackerActionConfig → List Bool
unfolding has_any_string has_entries
action_flags cfg =
    has_any_string (cfg.method ∷ cfg.path ∷ cfg.body_template ∷ cfg.ref_json_path ∷ [])
    ∷ has_entries cfg.headers
    ∷ has_entries cfg.success_status
    ∷ []

unfoldable pub has_tracker_action_config : TrackerActionConfig → Bool
unfolding any_of action_flags
has_tracker_action_config cfg = any_of (action_flags cfg)

-- `hasTrackerNotifierConfig`.
unfoldable pub tracker_flags : TrackerNotifier → List Bool
unfolding has_any_string has_entries has_auth has_retry has_tracker_action_config
tracker_flags cfg =
    cfg.enabled
    ∷ has_any_string (cfg.base_url ∷ [])
    ∷ not (cfg.timeout_sec == 0)
    ∷ has_auth cfg.auth
    ∷ has_retry cfg.retry
    ∷ has_entries cfg.name_template
    ∷ has_tracker_action_config cfg.create
    ∷ has_tracker_action_config cfg.resolve
    ∷ []

unfoldable pub has_tracker_notifier_config : TrackerNotifier → Bool
unfolding any_of tracker_flags
has_tracker_notifier_config cfg = any_of (tracker_flags cfg)

-- The tests of `hasNotifyConfig`, channel by channel.
unfoldable pub queue_flags : NotifyQueue → List Bool
unfolding has_any_non_zero
queue_flags q =
    q.enabled
    ∷ q.dlq
    ∷ has_any_non_zero (q.ack_wait_sec ∷ q.nack_delay_ms ∷ q.max_deliver ∷ q.max_ack_pending ∷ [])
    ∷ []

unfoldable pub queue_tests : NotifyQueue → Bool
unfolding any_of queue_flags
queue_tests q = any_of (queue_flags q)

unfoldable pub telegram_flags : TelegramNotifier → List Bool
unfolding has_any_string has_retry has_entries
telegram_flags t =
    t.enabled
    ∷ has_any_string (t.bot_token ∷ t.chat_id ∷ t.active_chat_id ∷ t.api_base ∷ [])
    ∷ has_retry t.retry
    ∷ has_entries t.name_template
    ∷ []

unfoldable pub telegram_tests : TelegramNotifier → Bool
unfolding any_of telegram_flags
telegram_tests t = any_of (telegram_flags t)

unfoldable pub http_flags : HttpNotifier → List Bool
unfolding has_any_string has_retry has_entries
http_flags t =
    t.enabled
    ∷ has_any_string (t.url ∷ t.method ∷ [])
    ∷ not (t.timeout_sec == 0)
    ∷ has_entries t.headers
    ∷ has_retry t.retry
    ∷ has_entries t.name_template
    ∷ []

unfoldable pub http_tests : HttpNotifier → Bool
unfolding any_of http_flags
http_tests t = any_of (http_flags t)

unfoldable pub mattermost_flags : MattermostConfig → List Bool
unfolding has_any_string has_retry has_entries
mattermost_flags t =
    t.enabled
    ∷ has_any_string (t.base_url ∷ t.bot_token ∷ t.channel_id ∷ t.active_channel_id ∷ [])
    ∷ not (t.timeout_sec == 0)
    ∷ has_retry t.retry
    ∷ has_entries t.name_template
    ∷ []

unfoldable pub mattermost_tests : MattermostConfig → Bool
unfolding any_of mattermost_flags
mattermost_tests t = any_of (mattermost_flags t)

-- `hasNotifyConfig`.
unfoldable pub notify_flags : NotifyConfig → List Bool
unfolding has_entries queue_tests telegram_tests http_tests mattermost_tests
    has_tracker_notifier_config
notify_flags cfg =
    cfg.repeat
    ∷ not (cfg.repeat_every_sec == 0)
    ∷ has_entries cfg.repeat_on
    ∷ cfg.repeat_per_channel
    ∷ cfg.on_pending
    ∷ queue_tests cfg.queue
    ∷ telegram_tests cfg.telegram
    ∷ http_tests cfg.http
    ∷ mattermost_tests cfg.mattermost
    ∷ has_tracker_notifier_config cfg.jira
    ∷ has_tracker_notifier_config cfg.youtrack
    ∷ []

unfoldable pub has_notify_config : NotifyConfig → Bool
unfolding any_of notify_flags
has_notify_config cfg = any_of (notify_flags cfg)

-- `hasUIConfig`.
unfoldable pub ui_flags : UiConfig → List Bool
unfolding has_any_string has_entries has_any_non_zero
ui_flags cfg =
    cfg.enabled
    ∷ has_any_string (
        cfg.listen ∷ cfg.base_path ∷ cfg.auth.basic.username ∷ cfg.auth.basic.password
        ∷ cfg.nats.registry_bucket ∷ cfg.service.public_base_url ∷ [])
    ∷ not (cfg.refresh_sec == 0)
    ∷ cfg.auth.basic.enabled
    ∷ has_entries cfg.nats.url
    ∷ has_any_non_zero (
        cfg.nats.registry_ttl_sec ∷ cfg.nats.stale_after_sec ∷ cfg.nats.offline_after_sec
        ∷ cfg.health.timeout_sec ∷ [])
    ∷ []

unfoldable pub has_ui_config : UiConfig → Bool
unfolding any_of ui_flags
has_ui_config cfg = any_of (ui_flags cfg)
