-- ===== src/Notify/Tracker.antt =====
-- internal/notify/notify.go: the sender of the trackers Jira and YouTrack. text/template, net/url,
-- base64 and JSON are parameters.
use malert.Domain.{firing, resolved, state_eq, Notification}
use malert.Permanent.{GoError, plain, wrapped}
use malert.Base.{
  is_some, Assoc, insert, Int64, Text, codes, text_eq, trim_space, is_empty, has_prefix, Unicode,
  to_lower, equal_fold, ◌⊎◌, inl, inr, Bool, false, not, ◌&&◌, ◌||◌, Option, none, some, List, [],
  ◌∷◌, ◌++◌, if◌then◌else◌,
}
use malert.Notify.Json.{Json, extract_json_path_string}
use malert.Notify.Http.{
  HttpRequest, HttpClient, trim_right_slash, Call, then_call, execute_request, set_header,
  new_request,
}
use malert.Notify.Retry.{Reply, delivered, refused}
use malert.Notify.Dispatcher.{Templating}
use malert.Config.Channels.{or_else}
use malert.Config.Notify.{TrackerAuthConfig, TrackerActionConfig, TrackerNotifier}
use malert.Config.ValidateNotify.{is_blank}
use malert.Domain.Event.{Float64}
use malert.Engine.Run.{step}

pub record TrackerWorld (S : Type 0) : Type 1 where
  pub http : HttpClient S
  pub templating : Templating
  pub unicode : Unicode
  pub upper : Text → Text
  pub url_error : Text → Option GoError
  pub base64 : Text → Text
  pub unmarshal : Text → Option Json
  pub format_float : Float64 → Text

-- `trackerActionRuntime`.
pub record TrackerAction (B : Type 0) : Type 0 where
  pub method : Text
  pub path_template : B
  pub body_template : Option B
  pub headers : Assoc B
  pub success_status : List Int64
  pub response_ref_key : Text

-- `TrackerSender`: an error of its set-up, or its two actions.
pub record TrackerSender (B : Type 0) : Type 0 where
  pub channel : Text
  pub cfg : TrackerNotifier
  pub actions : GoError ⊎ (TrackerAction B × TrackerAction B)

-- `resolveTrackerURL`; `url_error` is the error of url.Parse.
unfoldable pub resolve_tracker_url : (Text → Option GoError) → Text → Text → GoError ⊎ Text
unfolding trim_right_slash has_prefix
resolve_tracker_url url_error base_url path =
    let trimmed = trim_space path in
    let base = trim_right_slash (trim_space base_url) in
    if is_empty trimmed
    then inl (plain (codes "empty request path"))
    else if has_prefix trimmed (codes "http://") || has_prefix trimmed (codes "https://")
    then elim (url_error trimmed) [ some e ↦ inl e | none ↦ inr trimmed ]
    else if is_empty base
    then inl (plain (codes "empty base_url"))
    else if has_prefix trimmed (codes "/")
    then inr (base ++ trimmed)
    else inr (base ++ (b'/' ∷ trimmed))

module _ {S : Type 0} (w : TrackerWorld S) where
  abbrev pub Body : Type 0
  Body = w.templating.Body

  -- `parseTemplate` over the headers.
  unfoldable pub parse_headers : Text → Assoc Text → GoError ⊎ Assoc Body
  parse_headers title [] = inr []
  parse_headers title ((key, value) ∷ rest) =
      let later = parse_headers title rest in
      elim (w.templating.parse (title ++ codes ".headers." ++ key) value) [
        | inl e ↦ inl e
        | inr body ↦ elim later [ inl e ↦ inl e | inr headers ↦ inr ((key, body) ∷ headers) ]
      ]

  -- The template of a body, if there is one.
  unfoldable pub parse_body : Text → Text → GoError ⊎ Option Body
  parse_body title body =
      if is_blank body
      then inr none
      else elim (w.templating.parse (title ++ codes ".body_template") body) [
        | inl e ↦ inl e
        | inr parsed ↦ inr (some parsed)
      ]

  -- `buildTrackerActionRuntime`.
  unfoldable pub build_tracker_action :
      Text → Text → TrackerActionConfig → GoError ⊎ TrackerAction Body
  unfolding parse_headers parse_body
  build_tracker_action channel name cfg =
      let title = codes "notify." ++ channel ++ (b'.' ∷ name) in
      elim (w.templating.parse (title ++ codes ".path") cfg.path) [
        | inl e ↦ inl e
        | inr path ↦ elim (parse_body title cfg.body_template) [
          | inl e ↦ inl e
          | inr body ↦ elim (parse_headers title cfg.headers) [
            | inl e ↦ inl e
            | inr headers ↦ inr (record {
              method = w.upper (trim_space cfg.method);
              path_template = path;
              body_template = body;
              headers = headers;
              success_status = cfg.success_status;
              response_ref_key = trim_space cfg.ref_json_path;
            })
          ]
        ]
      ]

  -- `NewTrackerSender`.
  unfoldable pub new_tracker_sender : Text → TrackerNotifier → TrackerSender Body
  unfolding build_tracker_action
  new_tracker_sender channel cfg = record {
    channel = to_lower w.unicode (trim_space channel);
    cfg = cfg;
    actions = elim (build_tracker_action channel (codes "create") cfg.create) [
      | inl e ↦ inl e
      | inr opening ↦ elim (build_tracker_action channel (codes "resolve") cfg.resolve) [
        | inl e ↦ inl e
        | inr closing ↦ inr (opening, closing)
      ]
    ];
  }

  -- `applyTrackerAuth`.
  unfoldable pub apply_tracker_auth : TrackerAuthConfig → HttpRequest → HttpRequest
  unfolding insert
  apply_tracker_auth cfg request =
      let kind = to_lower w.unicode (trim_space cfg.kind) in
      let prefix = trim_space cfg.prefix in
      let token = trim_space cfg.token in
      let header = trim_space cfg.header in
      if text_eq kind (codes "bearer")
      then set_header w.http (codes "Authorization")
          (or_else prefix (codes "Bearer") ++ (b' ' ∷ token)) request
      else if text_eq kind (codes "basic")
      then set_header w.http (codes "Authorization")
          (codes "Basic " ++ w.base64 (trim_space cfg.username ++ (b':' ∷ trim_space cfg.password)))
          request
      else if text_eq kind (codes "header") && not (is_empty header)
      then set_header w.http header (if is_empty prefix then token else prefix ++ (b' ' ∷ token))
          request
      else request

  module _ (sender : TrackerSender Body) (n : Notification) where
    abbrev pub tracker_error : Text → GoError → GoError
    tracker_error step e = wrapped (codes "tracker " ++ sender.channel ++ step) e

    -- The body that is sent: none where the template gives a blank text.
    unfoldable pub render_body : Option Body → GoError ⊎ Option Text
    render_body none = inr none
    render_body (some template) = elim (w.templating.execute template n) [
      | inl e ↦ inl (tracker_error (codes " render body: ") e)
      | inr text ↦ inr (if is_blank text then none else some text)
    ]

    -- The loop over the headers; the flag says whether a content type was set.
    unfoldable pub render_headers : Assoc Body → Bool → HttpRequest → GoError ⊎ (HttpRequest × Bool)
    unfolding insert equal_fold
    render_headers [] typed request = inr (request, typed)
    render_headers ((key, template) ∷ rest) typed request = elim (w.templating.execute template n) [
      | inl e ↦
          inl (tracker_error (codes " render header " ++ w.templating.quote key ++ codes ": ") e)
      | inr value ↦
          render_headers rest (typed || equal_fold w.unicode key (codes "content-type"))
            (set_header w.http key value request)
    ]

    -- The request of an action.
    unfoldable pub action_request : TrackerAction Body → GoError ⊎ HttpRequest
    unfolding resolve_tracker_url render_body render_headers new_request apply_tracker_auth insert
    action_request action = elim (w.templating.execute action.path_template n) [
      | inl e ↦ inl (tracker_error (codes " render path: ") e)
      | inr path ↦ elim (resolve_tracker_url w.url_error sender.cfg.base_url path) [
        | inl e ↦ inl (tracker_error (codes " resolve url: ") e)
        | inr url ↦ elim (render_body action.body_template) [
          | inl e ↦ inl e
          | inr body ↦
              elim (new_request w.http action.method url body
                (codes "tracker " ++ sender.channel ++ codes " build request: ")) [
                  | inl e ↦ inl e
                  | inr request ↦ elim (render_headers action.headers false request) [
                    | inl e ↦ inl e
                    | inr (headed, typed) ↦ inr (
                        apply_tracker_auth sender.cfg.auth (
                          if is_some body && not typed
                          then set_header w.http (codes "Content-Type") (codes "application/json")
                              headed
                          else headed))
                  ]
                ]
        ]
      ]
    ]

    -- The reference in the answer to an action, empty where none is asked for.
    unfoldable pub response_ref : TrackerAction Body → S → Text → Call S Text
    unfolding extract_json_path_string
    response_ref action s body =
        if is_blank action.response_ref_key
        then (s, inr [])
        else elim (extract_json_path_string w.unmarshal w.format_float body
            action.response_ref_key) [
              | none ↦ (
                s,
                inl (plain (codes "tracker " ++ sender.channel ++ codes " parse response ref ")),
              )
              | some ref ↦ (s, inr ref)
            ]

    -- `executeAction`, which gives the reference.
    unfoldable pub execute_action : S → TrackerAction Body → Call S Text
    unfolding action_request execute_request then_call response_ref
    execute_action s action = elim (action_request action) [
      | inl e ↦ (s, inl e)
      | inr request ↦
          then_call
            (execute_request w.http s request (codes "tracker " ++ sender.channel)
              action.success_status (not (is_blank action.response_ref_key)))
            (response_ref action)
    ]

    -- The reply to a create action: it must have a reference.
    unfoldable pub created_reply : Call S Text → S × Reply
    created_reply (t, inl e) = (t, refused e)
    created_reply (t, inr ref) =
        if is_blank ref
        then (
          t,
          refused (plain (codes "tracker create response does not contain external reference")),
        )
        else (t, delivered (record { message_id = 0; external_ref = ref }))

    unfoldable pub resolved_reply : Call S Text → S × Reply
    resolved_reply (t, inl e) = (t, refused e)
    resolved_reply (t, inr ref) =
        (t, delivered (record { message_id = 0; external_ref = n.external_ref }))

    -- `Send` without the check of the set-up, on the create and resolve actions.
    unfoldable pub send_action : TrackerAction Body × TrackerAction Body → S → S × Reply
    unfolding execute_action created_reply resolved_reply
    send_action (opening, closing) s =
        if state_eq n.state firing
        then (if is_blank n.external_ref
            then created_reply (execute_action s opening)
            else (s, delivered (record { message_id = 0; external_ref = n.external_ref })))
        else if state_eq n.state resolved
        then (if is_blank n.external_ref
            then (s, refused (plain (codes "tracker resolve requires external reference")))
            else resolved_reply (execute_action s closing))
        else (s, delivered (record { message_id = 0; external_ref = [] }))

    -- `Send`.
    unfoldable pub send_tracker : S → S × Reply
    unfolding send_action
    send_tracker s = elim sender.actions [
      | inl e ↦ (s, refused e)
      | inr actions ↦ send_action actions s
    ]
