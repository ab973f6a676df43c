-- ===== src/Manager/Routes.antt =====
-- internal/app/manager.go: the routes of a rule, and the notification that each of them gets.
use malert.Domain.{resolved, state_eq, Notification}
use malert.Base.{
  Time, is_zero, Text, text_eq, trim_space, is_empty, Unicode, to_lower, Bool, true, not, ◌&&◌,
  ◌||◌, Option, none, some, List, [], ◌∷◌, if◌then◌else◌,
}
use malert.Config.Rule.{RuleNotifyRoute}
use malert.Engine.Access.{get_channel_message_id, get_channel_external_ref}
use malert.Engine.State.{States}
pub use malert.Config.Channels.{
  mode_history, mode_active_only, channel_telegram, channel_mattermost, channel_jira,
  channel_youtrack, or_else, normalize_lower_default, normalize_notify_route_mode,
}

pub record NotifyRoute : Type 0 where
  pub key : Text
  pub channel : Text
  pub template : Text
  pub mode : Text

-- `normalizedNotifyRouteFromConfig`; `none` is its false flag.
unfoldable pub normalized_notify_route : Unicode → RuleNotifyRoute → Bool → Option NotifyRoute
unfolding normalize_notify_route_mode
normalized_notify_route u route already =
    let lowered : Text → Text = λ s. if already then s else to_lower u s in
    let channel = trim_space route.channel in
    let template = trim_space route.template in
    let mode = trim_space route.mode in
    if is_empty channel || is_empty template
    then none
    else some (record {
      key = or_else (lowered (trim_space route.name)) (lowered channel);
      channel = lowered channel;
      template = template;
      mode = if already then or_else mode mode_history else normalize_notify_route_mode u mode;
    })

-- The external reference of a route's notification: its own, or the one that the engine holds.
unfoldable pub with_external_ref : States → Text → Notification → Notification
with_external_ref states key n =
    if not (is_empty (trim_space n.external_ref))
    then n
    else elim (get_channel_external_ref states n.alert_id key) [
      | none ↦ n
      | some ref ↦ record n { external_ref = ref }
    ]

abbrev pub has_ref : Notification → Bool
has_ref n = not (is_empty (trim_space n.external_ref))

-- The message that a resolved Telegram notification answers.
unfoldable pub with_reply : States → NotifyRoute → Notification → Notification
with_reply states route n =
    if text_eq route.channel channel_telegram
    then elim (get_channel_message_id states n.alert_id route.key) [
      | none ↦ n
      | some message ↦ record n { reply_to_message_id = some message }
    ]
    else n

-- The switch on the mode of a route for a resolved notification; `none` skips the route.
unfoldable pub resolved_for_route : States → NotifyRoute → Notification → Option Notification
unfolding with_reply
resolved_for_route states route n =
    if text_eq route.mode mode_active_only
    then (if has_ref n then some n else none)
    else if text_eq route.channel channel_mattermost && not (has_ref n)
    then none
    else some (with_reply states route n)

-- `prepareNotificationForRoute`; `clock` is what the clock reads for a notification with no time.
unfoldable pub prepare_notification :
    States → Time → Notification → NotifyRoute → Option Notification
unfolding with_external_ref resolved_for_route
prepare_notification states clock n route =
    let routed : Notification = record n {
      channel = route.channel;
      route_key = route.key;
      route_mode = route.mode;
      timestamp = if is_zero n.timestamp then clock else n.timestamp;
    } in
    let per_route = with_external_ref states route.key routed in
    if state_eq per_route.state resolved
    then resolved_for_route states route per_route
    else some per_route

-- `shouldDropTrackerNotification`.
unfoldable pub should_drop_tracker : Bool → NotifyRoute → Notification → Bool
should_drop_tracker drop route n =
    drop
    && state_eq n.state resolved
    && (text_eq route.channel channel_jira || text_eq route.channel channel_youtrack)
    && not (has_ref n)

-- The passes of `forEachRouteNotification` that reach the callback, in order. The callback does not
-- change the engine, so that all of them can be prepared first.
unfoldable pub route_notifications :
    Unicode
    → States
    → Time
    → Notification
    → Bool
    → List RuleNotifyRoute
    → List (NotifyRoute × Notification)
unfolding normalized_notify_route prepare_notification should_drop_tracker
route_notifications u states clock n drop [] = []
route_notifications u states clock n drop (r ∷ routes) =
    let rest = route_notifications u states clock n drop routes in
    elim (normalized_notify_route u r true) [
      | none ↦ rest
      | some route ↦ elim (prepare_notification states clock n route) [
        | none ↦ rest
        | some per_route ↦
            if should_drop_tracker drop route per_route then rest else (route, per_route) ∷ rest
      ]
    ]
