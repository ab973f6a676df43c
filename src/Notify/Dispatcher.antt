-- ===== src/Notify/Dispatcher.antt =====
-- internal/notify/notify.go: the dispatcher finds the sender of a channel and the template of a
-- route, renders the message and sends it. text/template and strconv.Quote are parameters, and so
-- are the transports behind the interface `ChannelSender`, which Notify/Senders fills with the
-- senders of the channels.
use malert.Domain.{Notification}
use malert.Permanent.{GoError, plain, wrapped, marked}
use malert.Base.{
  Assoc, lookup, insert, Text, codes, text_eq, trim_space, is_empty, Unicode, to_lower, text_leb, ℕ,
  ◌⊎◌, inl, inr, Option, none, some, List, [], ◌∷◌, ◌++◌, map, if◌then◌else◌,
}
use malert.Notify.Retry.{refused, Sender, Timer, Sending, send_with_retry}
use malert.Config.Channels.{
  channel_telegram, channel_http, channel_mattermost, channel_jira, channel_youtrack,
  notify_channel_names, notify_channel_enabled, no_retry, notify_channel_retry,
  notify_channel_templates,
}
use malert.Config.Notify.{
  NamedTemplateConfig, NotifyRetry, TelegramNotifier, HttpNotifier, MattermostConfig,
  TrackerNotifier, NotifyConfig,
}

-- `parse` is `templatefmt.ParseNotificationTemplate`, which gives no template with an error.
pub record Templating : Type 1 where
  pub Body : Type 0
  pub parse : Text → Text → GoError ⊎ Body
  pub execute : Body → Notification → GoError ⊎ Text
  pub quote : Text → Text

-- `compiledTemplate`; a pointer to the template that may be nil is an `Option`.
pub record CompiledTemplate (B : Type 0) : Type 0 where
  pub channel : Text
  pub body : B

-- `Dispatcher`.
pub record Dispatcher (S : Type 0) (B : Type 0) : Type 0 where
  pub senders : Assoc (Sender S)
  pub channels : List Text
  pub retries : Assoc NotifyRetry
  pub templates : Assoc (CompiledTemplate (Option B))
  pub template_errs : Assoc GoError

-- The constructors of the senders.
pub record Transports (S : Type 0) : Type 0 where
  pub new_telegram_sender : TelegramNotifier → Sender S
  pub new_http_sender : HttpNotifier → Sender S
  pub new_mattermost_sender : MattermostConfig → Sender S
  pub new_tracker_sender : Text → TrackerNotifier → Sender S

unfoldable pub channel_sender_factories :
    {S : Type 0} → Transports S → Assoc (NotifyConfig → Sender S)
channel_sender_factories t =
    (channel_telegram, λ cfg. t.new_telegram_sender cfg.telegram)
    ∷ (channel_http, λ cfg. t.new_http_sender cfg.http)
    ∷ (channel_mattermost, λ cfg. t.new_mattermost_sender cfg.mattermost)
    ∷ (channel_jira, λ cfg. t.new_tracker_sender channel_jira cfg.jira)
    ∷ (channel_youtrack, λ cfg. t.new_tracker_sender channel_youtrack cfg.youtrack)
    ∷ []

unfoldable pub new_sender_for_channel :
    {S : Type 0} → Transports S → Text → NotifyConfig → Option (Sender S)
unfolding channel_sender_factories lookup
new_sender_for_channel t channel cfg = elim (lookup channel (channel_sender_factories t)) [
  | none ↦ none
  | some factory ↦ some (factory cfg)
]

-- sort.Strings.
unfoldable insert_text : Text → List Text → List Text
insert_text a [] = a ∷ []
insert_text a (b ∷ bs) =
    let rest = insert_text a bs in if text_leb a b then a ∷ b ∷ bs else b ∷ rest

unfoldable sort_texts : List Text → List Text
unfolding insert_text
sort_texts [] = []
sort_texts (a ∷ rest) = insert_text a (sort_texts rest)

module _ (u : Unicode) where
  unfoldable pub template_key : Text → Text → Text
  template_key channel name =
      to_lower u (trim_space channel) ++ (b'/' ∷ to_lower u (trim_space name))

  module _ {S : Type 0} (t : Transports S) (cfg : NotifyConfig) where
    -- The first loop of `NewDispatcher`.
    unfoldable pub collect_senders :
        List Text → Assoc (Sender S) × Assoc NotifyRetry → Assoc (Sender S) × Assoc NotifyRetry
    unfolding insert notify_channel_enabled notify_channel_retry new_sender_for_channel
    collect_senders [] maps = maps
    collect_senders (channel ∷ rest) (senders, retries) = collect_senders rest (
        if notify_channel_enabled u cfg channel
        then elim (new_sender_for_channel t channel cfg) [
          | none ↦ (senders, retries)
          | some sender ↦ (
            insert channel sender senders,
            insert channel (notify_channel_retry u cfg channel) retries,
          )
        ]
        else (senders, retries))

  module _ (w : Templating) where
    -- `collectCompiledTemplates`.
    unfoldable pub collect_compiled_templates :
        Text
        → List NamedTemplateConfig
        → Assoc (CompiledTemplate (Option w.Body)) × Assoc GoError
        → Assoc (CompiledTemplate (Option w.Body)) × Assoc GoError
    unfolding insert template_key
    collect_compiled_templates channel [] maps = maps
    collect_compiled_templates channel (entry ∷ rest) (compiled, errs) =
        let name = to_lower u (trim_space entry.name) in
        let key = template_key channel name in
        let title =
          codes "notify." ++ channel ++ codes ".name-template." ++ name ++ codes ".message" in
        collect_compiled_templates channel rest (
          if is_empty name then (compiled, errs) else elim (w.parse title entry.message) [
            | inl e ↦
                (insert key (record { channel = channel; body = none }) compiled, insert key e errs)
            | inr body ↦
                (insert key (record { channel = channel; body = some body }) compiled, errs)
          ])

    unfoldable pub collect_channels :
        NotifyConfig
        → List Text
        → Assoc (CompiledTemplate (Option w.Body)) × Assoc GoError
        → Assoc (CompiledTemplate (Option w.Body)) × Assoc GoError
    unfolding collect_compiled_templates notify_channel_templates
    collect_channels cfg [] maps = maps
    collect_channels cfg (channel ∷ rest) maps =
        collect_channels cfg rest
          (collect_compiled_templates channel (notify_channel_templates u cfg channel) maps)

    -- `buildTemplateSet`.
    unfoldable pub build_template_set :
        NotifyConfig → Assoc (CompiledTemplate (Option w.Body)) × Assoc GoError
    unfolding collect_channels
    build_template_set cfg = collect_channels cfg notify_channel_names ([], [])

    -- `NewDispatcher`.
    unfoldable pub new_dispatcher : {S : Type 0} → Transports S → NotifyConfig → Dispatcher S w.Body
    unfolding collect_senders build_template_set sort_texts
    new_dispatcher t cfg =
        let (senders, retries) = collect_senders t cfg notify_channel_names ([], []) in
        let (templates, errs) = build_template_set cfg in
        record {
          senders = senders;
          channels = sort_texts (map (λ entry. entry.0) senders);
          retries = retries;
          templates = templates;
          template_errs = errs;
        }

    module _ {S : Type 0} (d : Dispatcher S w.Body) where
      -- `resolveTemplate`.
      unfoldable pub resolve_template : Text → Text → GoError ⊎ CompiledTemplate w.Body
      unfolding template_key lookup
      resolve_template template_name channel =
          let name = to_lower u (trim_space template_name) in
          let key = template_key channel name in
          let label = codes "notify template " ++ w.quote template_name in
          let missing = inl (plain (label ++ codes " is not configured")) in
          if is_empty name
          then inl (plain (codes "notify template name is required"))
          else elim (lookup key d.template_errs) [
            | some e ↦ inl (wrapped (label ++ codes " is invalid: ") e)
            | none ↦ elim (lookup key d.templates) [
              | none ↦ missing
              | some compiled ↦ elim compiled.body [
                | none ↦ missing
                | some body ↦
                    if text_eq compiled.channel channel
                    then inr (record { channel = compiled.channel; body = body })
                    else inl (
                        plain (
                          label
                          ++ codes " is bound to channel "
                          ++ w.quote compiled.channel
                          ++ codes ", not "
                          ++ w.quote channel))
              ]
            ]
          ]

      abbrev pub render_error : CompiledTemplate w.Body → GoError → GoError
      render_error entry e =
          wrapped
            (codes "render notify template for channel " ++ w.quote entry.channel ++ codes ": ") e

      -- `renderMessage`.
      unfoldable pub render_message : CompiledTemplate w.Body → Notification → GoError ⊎ Text
      render_message entry n = elim (w.execute entry.body n) [
        | inl e ↦ inl (render_error entry e)
        | inr text ↦ inr text
      ]

      -- `Send`, with as much fuel for its attempts.
      unfoldable pub send : Timer S → ℕ → S → Text → Text → Notification → Sending S
      unfolding lookup resolve_template render_message send_with_retry
      send wait fuel s channel template_name n = elim (lookup channel d.senders) [
        | none ↦ (
          s,
          some (
              refused (
                marked (
                  plain
                    (codes "notify channel " ++ w.quote channel ++ codes " is not configured")))),
        )
        | some sender ↦ elim (resolve_template template_name channel) [
          | inl e ↦ (s, some (refused (marked e)))
          | inr compiled ↦ elim (render_message compiled (record n { channel = channel })) [
            | inl e ↦ (s, some (refused (marked e)))
            | inr text ↦
                send_with_retry u wait sender (record n { channel = channel; message = text })
                  (elim (lookup channel d.retries) [ none ↦ no_retry | some retry ↦ retry ]) fuel s
          ]
        ]
      ]
