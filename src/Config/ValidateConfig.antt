-- ===== src/Config/ValidateConfig.antt =====
-- internal/config/config.go, `validateConfig`: the checks of a whole configuration in their order.
-- The parsers of text/template and net/url and the compilers of patterns are parameters.
use malert.Base.{
  ◌==◌, Int64, int64_mod, leb_i64, ltb_i64, Text, codes, text_eq, trim_space, is_empty, Unicode,
  to_lower, ℕ, ◌+◌, ◌%◌, ◌⊎◌, inl, inr, Bool, true, false, not, ◌&&◌, ◌||◌, Option, none, some,
  List, [], ◌∷◌, ◌++◌, if◌then◌else◌,
}
use malert.Config.Service.{NatsIngestConfig, LogSinkConfig, UiConfig, Config}
use malert.Config.Rule.{Regexp, RuleConfig}
use malert.Config.ValidateRule.{RuleError, is_none_of, validate_rule}
use malert.Config.Checks.{first_failing, is_nonpositive, is_negative}
use malert.Config.Channels.{
  channel_jira, channel_youtrack, service_mode_nats, service_mode_single, normalize_service_mode,
  is_supported_service_mode, notify_channel_names,
}
use malert.Config.Notify.{NotifyQueue, NotifyConfig}
use malert.Config.ValidateNotify.{
  is_blank, is_one_of, notify_template_checks, rule_route_checks, tracker_checks,
}

pub record Url : Type 0 where
  pub scheme : Text
  pub host : Text
  pub raw_query : Text
  pub fragment : Text

pub record Parsers : Type 0 where
  pub unicode : Unicode
  pub parses_template : Text → Bool
  pub parse_url : Text → Option Url
  pub compile_regexp : Text → Option Regexp
  pub compile_wildcard : Text → Option Regexp

pub data ConfigError : Type 0 where
  setting : Text → ConfigError
  rule_error : ℕ → RuleError → ConfigError
  duplicate_rule : Text → ConfigError
  route_error : ℕ → Text → ConfigError

-- `validateLogSink`.
unfoldable pub log_sink_checks : Unicode → Text → LogSinkConfig → Bool → List (Bool × Text)
log_sink_checks u name sink require_path =
    let level = to_lower u (trim_space sink.level) in
    let format = to_lower u (trim_space sink.format) in
    let levels = codes "debug" ∷ codes "info" ∷ codes "warn" ∷ codes "error" ∷ codes "panic" ∷ [] in
    if not sink.enabled
    then []
    else (not (is_one_of level levels), name ++ codes ".level has unsupported value ")
      ∷ (
        not (is_one_of format (codes "line" ∷ codes "json" ∷ [])),
        name ++ codes ".format has unsupported value ",
      )
      ∷ (require_path && is_blank sink.path, name ++ codes ".path is required")
      ∷ []

-- `validateAbsoluteHTTPURL`.
unfoldable pub absolute_url_checks : (Text → Option Url) → Text → Text → List (Bool × Text)
absolute_url_checks parse_url path raw = elim (parse_url (trim_space raw)) [
  | none ↦ (true, path ++ codes " is invalid: ") ∷ []
  | some url ↦
      (
        not (text_eq url.scheme (codes "http")) && not (text_eq url.scheme (codes "https")),
        path ++ codes " must use http or https scheme",
      )
      ∷ (is_empty url.host, path ++ codes " must include host")
      ∷ (
        not (is_empty url.raw_query) || not (is_empty url.fragment),
        path ++ codes " must not include query or fragment",
      )
      ∷ []
]

-- The loops over a list of URLs.
unfoldable pub url_checks : Text → List Text → List (Bool × Text)
url_checks path [] = []
url_checks path (url ∷ rest) = (is_blank url, path ++ codes " is empty") ∷ url_checks path rest

-- `n == 0 || n < -1`.
abbrev pub is_bad_max_deliver : Int64 → Bool
is_bad_max_deliver n = n % int64_mod == 0 || ltb_i64 n 18446744073709551615

unfoldable pub ingest_nats_checks : NatsIngestConfig → List (Bool × Text)
unfolding url_checks
ingest_nats_checks nats =
    (is_none_of nats.url, codes "ingest.nats.url is required")
    ∷ (url_checks (codes "ingest.nats.url") nats.url
        ++ (if not nats.enabled
            then []
            else (is_nonpositive nats.workers, codes "ingest.nats.workers must be >0")
              ∷ (is_nonpositive nats.ack_wait_sec, codes "ingest.nats.ack_wait_sec must be >0")
              ∷ (is_negative nats.nack_delay_ms, codes "ingest.nats.nack_delay_ms must be >=0")
              ∷ (
                is_bad_max_deliver nats.max_deliver,
                codes "ingest.nats.max_deliver must be -1 or >0",
              )
              ∷ (
                is_nonpositive nats.max_ack_pending,
                codes "ingest.nats.max_ack_pending must be >0",
              )
              ∷ []))

-- The service and ingest sections.
unfoldable pub service_checks : Unicode → Config → List (Bool × Text)
unfolding normalize_service_mode is_supported_service_mode ingest_nats_checks
service_checks u cfg =
    let mode = normalize_service_mode u cfg.service.mode in
    (is_none_of cfg.rule, codes "at least one rule is required")
    ∷ (not (is_supported_service_mode u mode), codes "service.mode has unsupported value ")
    ∷ (
      is_negative cfg.service.runtime_state_idle_sec,
      codes "service.runtime_state_idle_sec must be >=0",
    )
    ∷ (is_negative cfg.service.runtime_state_max, codes "service.runtime_state_max must be >=0")
    ∷ (is_blank cfg.ingest.http.listen, codes "ingest.http.listen is required")
    ∷ (is_blank cfg.ingest.http.health_path, codes "ingest.http.health_path is required")
    ∷ (is_blank cfg.ingest.http.ready_path, codes "ingest.http.ready_path is required")
    ∷ (is_blank cfg.ingest.http.ingest_path, codes "ingest.http.ingest_path is required")
    ∷ (
      text_eq mode service_mode_single && not cfg.ingest.http.enabled,
      codes "ingest.http.enabled must be true when service.mode=single",
    )
    ∷ (if text_eq mode service_mode_nats then ingest_nats_checks cfg.ingest.nats else [])

-- The ui section.
unfoldable pub ui_checks : (Text → Option Url) → UiConfig → List (Bool × Text)
unfolding absolute_url_checks url_checks
ui_checks parse_url ui =
    (if not ui.enabled
      then []
      else (is_blank ui.listen, codes "ui.listen is required when ui.enabled=true")
        ∷ (is_blank ui.base_path, codes "ui.base_path is required when ui.enabled=true")
        ∷ (not ui.auth.basic.enabled, codes "ui.auth.basic.enabled must be true")
        ∷ (is_blank ui.auth.basic.username, codes "ui.auth.basic.username is required")
        ∷ (is_blank ui.auth.basic.password, codes "ui.auth.basic.password is required")
        ∷ (is_blank ui.service.public_base_url, codes "ui.service.public_base_url is required")
        ∷ (is_nonpositive ui.refresh_sec, codes "ui.refresh_sec must be >0")
        ∷ (is_nonpositive ui.health.timeout_sec, codes "ui.health.timeout_sec must be >0")
        ∷ [])
    ++ ((if is_blank ui.service.public_base_url
          then []
          else absolute_url_checks parse_url (codes "ui.service.public_base_url")
              ui.service.public_base_url
            ++ ((is_none_of ui.nats.url, codes "ui.nats.url is required")
                ∷ (is_blank ui.nats.registry_bucket, codes "ui.nats.registry_bucket is required")
                ∷ []))
        ++ (url_checks (codes "ui.nats.url") ui.nats.url
            ++ ((
              is_nonpositive ui.nats.registry_ttl_sec,
              codes "ui.nats.registry_ttl_sec must be >0",
            )
                ∷ (
                  is_nonpositive ui.nats.stale_after_sec,
                  codes "ui.nats.stale_after_sec must be >0",
                )
                ∷ (
                  is_nonpositive ui.nats.offline_after_sec,
                  codes "ui.nats.offline_after_sec must be >0",
                )
                ∷ (
                  leb_i64 ui.nats.offline_after_sec ui.nats.stale_after_sec,
                  codes "ui.nats.stale_after_sec must be < ui.nats.offline_after_sec",
                )
                ∷ (
                  leb_i64 ui.nats.registry_ttl_sec ui.nats.offline_after_sec,
                  codes "ui.nats.offline_after_sec must be < ui.nats.registry_ttl_sec",
                )
                ∷ [])))

-- The queue section of notify.
unfoldable pub queue_checks : NotifyQueue → List (Bool × Text)
queue_checks queue =
    (if not queue.enabled
      then []
      else (is_nonpositive queue.ack_wait_sec, codes "notify.queue.ack_wait_sec must be >0")
        ∷ (is_negative queue.nack_delay_ms, codes "notify.queue.nack_delay_ms must be >=0")
        ∷ (is_bad_max_deliver queue.max_deliver, codes "notify.queue.max_deliver must be -1 or >0")
        ∷ (is_nonpositive queue.max_ack_pending, codes "notify.queue.max_ack_pending must be >0")
        ∷ [])
    ++ ((
      queue.dlq && not queue.enabled,
      codes "notify.queue.dlq requires notify.queue.enabled=true",
    )
        ∷ [])

-- The transports of the notify section.
unfoldable pub transport_checks : Parsers → NotifyConfig → List (Bool × Text)
unfolding queue_checks tracker_checks
transport_checks p notify =
    let telegram = notify.telegram in
    let mattermost = notify.mattermost in
    (telegram.enabled && is_blank telegram.bot_token, codes "notify.telegram.bot_token is required")
    ∷ (telegram.enabled && is_blank telegram.chat_id, codes "notify.telegram.chat_id is required")
    ∷ (notify.http.enabled && is_blank notify.http.url, codes "notify.http.url is required")
    ∷ (queue_checks notify.queue
        ++ ((
          mattermost.enabled && is_blank mattermost.base_url,
          codes "notify.mattermost.base_url is required",
        )
            ∷ (
              mattermost.enabled && is_blank mattermost.bot_token,
              codes "notify.mattermost.bot_token is required",
            )
            ∷ (
              mattermost.enabled && is_blank mattermost.channel_id,
              codes "notify.mattermost.channel_id is required",
            )
            ∷ (
              mattermost.enabled && is_nonpositive mattermost.timeout_sec,
              codes "notify.mattermost.timeout_sec must be >0",
            )
            ∷ (tracker_checks p.unicode p.parses_template channel_jira notify.jira
                ++ tracker_checks p.unicode p.parses_template channel_youtrack notify.youtrack)))

-- Every check before the loop over the rules.
unfoldable pub section_checks : Parsers → Config → List (Bool × Text)
unfolding service_checks log_sink_checks ui_checks transport_checks notify_template_checks
section_checks p cfg =
    service_checks p.unicode cfg
    ++ (log_sink_checks p.unicode (codes "log.console") cfg.log.console false
        ++ (log_sink_checks p.unicode (codes "log.file") cfg.log.file true
            ++ (ui_checks p.parse_url cfg.ui
                ++ (transport_checks p cfg.notify
                    ++ notify_template_checks p.unicode p.parses_template cfg.notify
                        notify_channel_names))))

-- What follows `validateRule` in the loop: the rule's name is new, and its routes are valid.
unfoldable pub rule_binding :
    Parsers → NotifyConfig → List Text → ℕ → RuleConfig → Option ConfigError
unfolding first_failing rule_route_checks
rule_binding p notify names index rule =
    if is_one_of rule.name names
    then some (duplicate_rule rule.name)
    else elim (first_failing (rule_route_checks p.unicode notify [] rule.notify.route)) [
      | none ↦ none
      | some e ↦ some (route_error index e)
    ]

-- The loop over the rules, from the given index and with the names before it; the rules come out
-- with their compiled patterns.
unfoldable pub validate_rules :
    Parsers → NotifyConfig → List Text → ℕ → List RuleConfig → ConfigError ⊎ List RuleConfig
unfolding validate_rule rule_binding
validate_rules p notify names index [] = inr []
validate_rules p notify names index (rule ∷ rest) =
    elim (validate_rule p.compile_regexp p.compile_wildcard p.unicode rule) [
      | inl e ↦ inl (rule_error index e)
      | inr valid ↦ elim (rule_binding p notify names index rule) [
        | some e ↦ inl e
        | none ↦ elim (validate_rules p notify (rule.name ∷ names) (index + 1) rest) [
          | inl e ↦ inl e
          | inr later ↦ inr (valid ∷ later)
        ]
      ]
    ]

-- `validateConfig`.
unfoldable pub validate_config : Parsers → Config → ConfigError ⊎ Config
unfolding section_checks validate_rules
validate_config p cfg = elim (first_failing (section_checks p cfg)) [
  | some e ↦ inl (setting e)
  | none ↦ elim (validate_rules p cfg.notify [] 0 cfg.rule) [
    | inl e ↦ inl e
    | inr rules ↦ inr (record cfg { rule = rules })
  ]
]
