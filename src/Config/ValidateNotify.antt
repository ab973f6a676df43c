-- ===== src/Config/ValidateNotify.antt =====
-- internal/config/config.go: the checks of the message templates, of the trackers and of the routes
-- of a rule. An error is the fixed text of its message, up to the first value that it quotes, without indices; the
-- parser of text/template is a parameter, which says whether a text is a template.
use malert.Base.{
  Assoc, Int64, ltb_i64, Text, codes, text_eq, trim_space, is_empty, Unicode, to_lower, Bool, true,
  false, not, ◌&&◌, ◌||◌, List, [], ◌∷◌, ◌++◌, map, if◌then◌else◌,
}
use malert.Config.Rule.{RuleNotifyRoute}
use malert.Config.ValidateRule.{is_none_of}
use malert.Config.Checks.{is_nonpositive}
use malert.Config.Channels.{
  channel_telegram, channel_mattermost, mode_active_only, or_else, normalize_notify_route_mode,
  normalize_notify_channel, is_supported_notify_route_mode, is_supported_notify_channel,
  notify_channel_enabled, notify_channel_templates,
}
use malert.Config.Notify.{
  NamedTemplateConfig, TrackerAuthConfig, TrackerActionConfig, TrackerNotifier, NotifyConfig,
}

abbrev pub is_blank : Text → Bool
is_blank s = is_empty (trim_space s)

abbrev pub is_one_of : Text → List Text → Bool
is_one_of a [] = false
is_one_of a (b ∷ rest) = text_eq a b || is_one_of a rest

-- `validateMessageTemplate`.
unfoldable pub template_checks : (Text → Bool) → Text → Text → List (Bool × Text)
template_checks parses path body =
    (is_blank body, path ++ codes " is required")
    ∷ (not (parses (trim_space body)), path ++ codes " is invalid: ")
    ∷ []

-- The names of a channel's templates that were seen before, and the checks of the rest of them.
unfoldable pub channel_template_checks :
    Unicode → (Text → Bool) → Text → List Text → List NamedTemplateConfig → List (Bool × Text)
unfolding template_checks
channel_template_checks u parses prefix seen [] = []
channel_template_checks u parses prefix seen (entry ∷ rest) =
    let key = to_lower u (trim_space entry.name) in
    (is_blank entry.name, prefix ++ codes ".name is required")
    ∷ (is_one_of key seen, codes "duplicate " ++ prefix ++ codes " name ")
    ∷ (template_checks parses (prefix ++ codes ".message") entry.message
        ++ channel_template_checks u parses prefix (key ∷ seen) rest)

-- `validateNotifyTemplates`.
unfoldable pub notify_template_checks :
    Unicode → (Text → Bool) → NotifyConfig → List Text → List (Bool × Text)
unfolding channel_template_checks notify_channel_templates
notify_template_checks u parses cfg [] = []
notify_template_checks u parses cfg (channel ∷ rest) =
    channel_template_checks u parses (codes "notify." ++ channel ++ codes ".name-template") []
      (notify_channel_templates u cfg channel)
    ++ notify_template_checks u parses cfg rest

-- The names under which a channel's templates are found, trimmed and in lower case.
unfoldable pub template_names : Unicode → NotifyConfig → Text → List Text
unfolding notify_channel_templates
template_names u cfg channel =
    map (λ entry. to_lower u (trim_space entry.name)) (notify_channel_templates u cfg channel)

-- The key of a route: its name, or its channel.
unfoldable pub route_key : Unicode → RuleNotifyRoute → Text
unfolding normalize_notify_channel
route_key u route =
    or_else (to_lower u (trim_space route.name)) (normalize_notify_channel u route.channel)

-- The switch on the channel of a route in active_only mode.
unfoldable pub active_only_checks : NotifyConfig → Text → List (Bool × Text)
active_only_checks cfg channel =
    if text_eq channel channel_telegram
    then (
      is_blank cfg.telegram.active_chat_id,
      codes "active_only requires notify.telegram.active_chat_id",
    )
      ∷ []
    else if text_eq channel channel_mattermost
    then (
      is_blank cfg.mattermost.active_channel_id,
      codes "active_only requires notify.mattermost.active_channel_id",
    )
      ∷ []
    else (true, codes "active_only is supported only for telegram and mattermost") ∷ []

-- One round of the loop of `validateRuleNotifyRoutes`.
unfoldable pub route_checks :
    Unicode → NotifyConfig → List Text → RuleNotifyRoute → List (Bool × Text)
unfolding is_supported_notify_channel notify_channel_enabled route_key template_names
    is_supported_notify_route_mode active_only_checks
route_checks u cfg used route =
    let channel = normalize_notify_channel u route.channel in
    let mode = normalize_notify_route_mode u route.mode in
    let key = route_key u route in
    (not (is_supported_notify_channel u channel), codes "channel has unsupported value ")
    ∷ (not (notify_channel_enabled u cfg channel), codes "channel is disabled")
    ∷ (is_one_of key used, codes "notify.route has duplicate key ")
    ∷ (is_blank route.template, codes "template is required")
    ∷ (
      not (is_one_of (to_lower u (trim_space route.template)) (template_names u cfg channel)),
      codes "template is not defined",
    )
    ∷ (not (is_supported_notify_route_mode u mode), codes "mode has unsupported value ")
    ∷ (if text_eq mode mode_active_only then active_only_checks cfg channel else [])

-- `validateRuleNotifyRoutes`.
unfoldable pub rule_route_checks :
    Unicode → NotifyConfig → List Text → List RuleNotifyRoute → List (Bool × Text)
unfolding route_checks
rule_route_checks u cfg used [] = []
rule_route_checks u cfg used (route ∷ rest) =
    route_checks u cfg used route ++ rule_route_checks u cfg (route_key u route ∷ used) rest

-- The status codes of a tracker action.
unfoldable pub status_checks : Text → List Int64 → List (Bool × Text)
status_checks prefix [] = []
status_checks prefix (status ∷ rest) =
    (
      ltb_i64 status 100 || ltb_i64 599 status,
      prefix ++ codes ".success_status must be valid HTTP status code",
    )
    ∷ status_checks prefix rest

-- The headers of a tracker action, in the order of one range over the map.
unfoldable pub header_checks : (Text → Bool) → Text → Assoc Text → List (Bool × Text)
unfolding template_checks
header_checks parses prefix [] = []
header_checks parses prefix ((header, value) ∷ rest) =
    (is_blank header, prefix ++ codes ".headers contains empty key")
    ∷ (is_blank value, prefix ++ codes ".headers is empty")
    ∷ (template_checks parses (prefix ++ codes ".headers." ++ header) value
        ++ header_checks parses prefix rest)

-- `validateTrackerAction`.
unfoldable pub tracker_action_checks :
    (Text → Bool) → Text → TrackerActionConfig → Bool → List (Bool × Text)
unfolding status_checks header_checks
tracker_action_checks parses prefix cfg is_create =
    (is_blank cfg.path, prefix ++ codes ".path is required")
    ∷ (is_blank cfg.method, prefix ++ codes ".method is required")
    ∷ (is_none_of cfg.success_status, prefix ++ codes ".success_status is required")
    ∷ (status_checks prefix cfg.success_status
        ++ ((
          is_create && is_blank cfg.ref_json_path,
          prefix ++ codes ".ref_json_path is required for create action",
        )
            ∷ (template_checks parses (prefix ++ codes ".path") cfg.path
                ++ ((if is_blank cfg.body_template
                      then []
                      else template_checks parses (prefix ++ codes ".body_template")
                          cfg.body_template)
                    ++ header_checks parses prefix cfg.headers))))

-- `validateTrackerAuth`.
unfoldable pub tracker_auth_checks : Unicode → Text → TrackerAuthConfig → List (Bool × Text)
tracker_auth_checks u prefix cfg =
    let kind = to_lower u (trim_space cfg.kind) in
    let token : Bool × Text = (is_blank cfg.token, prefix ++ codes ".token is required") in
    if is_empty kind || text_eq kind (codes "none")
    then []
    else if text_eq kind (codes "bearer")
    then token ∷ []
    else if text_eq kind (codes "basic")
    then (is_blank cfg.username, prefix ++ codes ".username is required")
      ∷ (is_blank cfg.password, prefix ++ codes ".password is required")
      ∷ []
    else if text_eq kind (codes "header")
    then (is_blank cfg.header, prefix ++ codes ".header is required") ∷ token ∷ []
    else (true, prefix ++ codes ".type has unsupported value ") ∷ []

-- `validateTrackerNotifier`.
unfoldable pub tracker_checks :
    Unicode → (Text → Bool) → Text → TrackerNotifier → List (Bool × Text)
unfolding tracker_action_checks tracker_auth_checks
tracker_checks u parses channel cfg =
    let prefix = codes "notify." ++ channel in
    if not cfg.enabled
    then []
    else (is_blank cfg.base_url, prefix ++ codes ".base_url is required")
      ∷ (is_nonpositive cfg.timeout_sec, prefix ++ codes ".timeout_sec must be >0")
      ∷ (tracker_action_checks parses (prefix ++ codes ".create") cfg.create true
          ++ (tracker_action_checks parses (prefix ++ codes ".resolve") cfg.resolve false
              ++ tracker_auth_checks u (prefix ++ codes ".auth") cfg.auth))
