-- ===== src/Config/Channels.antt =====
-- internal/config/config.go: the registry of the delivery channels, and the canonical form of the
-- names in a configuration.
use malert.Base.{
  is_some, Assoc, lookup, Text, codes, text_eq, trim_space, Unicode, to_lower, Bool, false, ◌||◌,
  Option, none, some, List, [], ◌∷◌, is_empty, if◌then◌else◌,
}
use malert.Config.Notify.{NamedTemplateConfig, NotifyRetry, NotifyConfig}

abbrev pub channel_telegram : Text
channel_telegram = codes "telegram"

abbrev pub channel_http : Text
channel_http = codes "http"

abbrev pub channel_mattermost : Text
channel_mattermost = codes "mattermost"

abbrev pub channel_jira : Text
channel_jira = codes "jira"

abbrev pub channel_youtrack : Text
channel_youtrack = codes "youtrack"

abbrev pub mode_history : Text
mode_history = codes "history"

abbrev pub mode_active_only : Text
mode_active_only = codes "active_only"

abbrev pub service_mode_nats : Text
service_mode_nats = codes "nats"

abbrev pub service_mode_single : Text
service_mode_single = codes "single"

-- A text, or what stands for an empty one.
abbrev pub or_else : Text → Text → Text
or_else s fallback = if is_empty s then fallback else s

unfoldable pub normalize_lower_default : Unicode → Text → Text → Text
normalize_lower_default u value fallback = or_else (to_lower u (trim_space value)) fallback

unfoldable pub normalize_notify_route_mode : Unicode → Text → Text
unfolding normalize_lower_default
normalize_notify_route_mode u value = normalize_lower_default u value mode_history

unfoldable pub normalize_notify_channel : Unicode → Text → Text
unfolding normalize_lower_default
normalize_notify_channel u value = normalize_lower_default u value []

unfoldable pub normalize_service_mode : Unicode → Text → Text
unfolding normalize_lower_default
normalize_service_mode u value = normalize_lower_default u value service_mode_nats

unfoldable pub is_supported_service_mode : Unicode → Text → Bool
unfolding normalize_service_mode
is_supported_service_mode u mode =
    let known = normalize_service_mode u mode in
    text_eq known service_mode_nats || text_eq known service_mode_single

unfoldable pub is_supported_notify_route_mode : Unicode → Text → Bool
unfolding normalize_notify_route_mode
is_supported_notify_route_mode u mode =
    let known = normalize_notify_route_mode u mode in
    text_eq known mode_history || text_eq known mode_active_only

-- `notifyChannelOrder`.
abbrev pub notify_channel_names : List Text
notify_channel_names =
    channel_telegram ∷ channel_http ∷ channel_mattermost ∷ channel_jira ∷ channel_youtrack ∷ []

pub record NotifyChannelDescriptor : Type 0 where
  pub enabled : NotifyConfig → Bool
  pub retry : NotifyConfig → NotifyRetry
  pub templates : NotifyConfig → List NamedTemplateConfig

abbrev pub notify_channel_registry : Assoc NotifyChannelDescriptor
notify_channel_registry =
    (
      channel_telegram,
      record {
        enabled = λ cfg. cfg.telegram.enabled;
        retry = λ cfg. cfg.telegram.retry;
        templates = λ cfg. cfg.telegram.name_template;
      },
    )
    ∷ (
      channel_http,
      record {
        enabled = λ cfg. cfg.http.enabled;
        retry = λ cfg. cfg.http.retry;
        templates = λ cfg. cfg.http.name_template;
      },
    )
    ∷ (
      channel_mattermost,
      record {
        enabled = λ cfg. cfg.mattermost.enabled;
        retry = λ cfg. cfg.mattermost.retry;
        templates = λ cfg. cfg.mattermost.name_template;
      },
    )
    ∷ (
      channel_jira,
      record {
        enabled = λ cfg. cfg.jira.enabled;
        retry = λ cfg. cfg.jira.retry;
        templates = λ cfg. cfg.jira.name_template;
      },
    )
    ∷ (
      channel_youtrack,
      record {
        enabled = λ cfg. cfg.youtrack.enabled;
        retry = λ cfg. cfg.youtrack.retry;
        templates = λ cfg. cfg.youtrack.name_template;
      },
    )
    ∷ []

unfoldable pub notify_channel_descriptor_by_name : Unicode → Text → Option NotifyChannelDescriptor
unfolding normalize_notify_channel lookup
notify_channel_descriptor_by_name u channel =
    lookup (normalize_notify_channel u channel) notify_channel_registry

unfoldable pub is_supported_notify_channel : Unicode → Text → Bool
unfolding notify_channel_descriptor_by_name
is_supported_notify_channel u channel = is_some (notify_channel_descriptor_by_name u channel)

unfoldable pub notify_channel_enabled : Unicode → NotifyConfig → Text → Bool
unfolding notify_channel_descriptor_by_name
notify_channel_enabled u cfg channel = elim (notify_channel_descriptor_by_name u channel) [
  | none ↦ false
  | some descriptor ↦ descriptor.enabled cfg
]

-- `NotifyRetry{}`.
abbrev pub no_retry : NotifyRetry
no_retry = record {
  enabled = false;
  backoff = [];
  initial_ms = 0;
  max_ms = 0;
  max_attempts = 0;
  log_each_attempt = false;
}

unfoldable pub notify_channel_retry : Unicode → NotifyConfig → Text → NotifyRetry
unfolding notify_channel_descriptor_by_name
notify_channel_retry u cfg channel = elim (notify_channel_descriptor_by_name u channel) [
  | none ↦ no_retry
  | some descriptor ↦ descriptor.retry cfg
]

unfoldable pub notify_channel_templates : Unicode → NotifyConfig → Text → List NamedTemplateConfig
unfolding notify_channel_descriptor_by_name
notify_channel_templates u cfg channel = elim (notify_channel_descriptor_by_name u channel) [
  | none ↦ []
  | some descriptor ↦ descriptor.templates cfg
]
