-- ===== src/Manager/Sendable.antt =====
-- internal/app/manager.go: which notifications `forEachRouteNotification` lets through.
use malert.Domain.{resolved, Notification, AlertState, unset, pending, firing, state_eq}
use malert.Base.{
  text_eq, ◌≡◌, Bool, true, false, ◌&&◌, ◌||◌, some, List, [], ◌∷◌, Bool-cases, Option-cases, ℕ,
  refl, inl, inr, Option, arith, Time, is_zero, Text, trim_space, is_empty, Unicode, ◌↔◌, not,
  if◌then◌else◌, sym, ap, ◌∙◌,
}
use malert.Manager.Routes.{
  NotifyRoute, mode_active_only, channel_mattermost, channel_jira, channel_youtrack, has_ref,
  with_reply, resolved_for_route, channel_telegram, normalized_notify_route, with_external_ref,
  prepare_notification, should_drop_tracker, route_notifications,
}
use malert.Engine.State.{States}
use malert.Engine.Access.{get_channel_message_id, get_channel_external_ref}
use malert.Config.Rule.{RuleNotifyRoute}

-- A route on which a resolved notification refers to a message or an issue that is there already.
unfoldable pub needs_ref : Bool → NotifyRoute → Bool
needs_ref drop route =
    text_eq route.mode mode_active_only
    || text_eq route.channel channel_mattermost
    || (drop && (text_eq route.channel channel_jira || text_eq route.channel channel_youtrack))

pub record Sendable (drop : Bool) (n : Notification) (route : NotifyRoute) (m : Notification)
    : Type 0 where
  pub same_state : m.state ≡ n.state
  pub same_alert : m.alert_id ≡ n.alert_id
  pub on_channel : m.channel ≡ route.channel
  pub on_key : m.route_key ≡ route.key
  pub referenced : n.state ≡ resolved → needs_ref drop route ≡ true → has_ref m ≡ true

abbrev pub AllSendable : Bool → Notification → List (NotifyRoute × Notification) → Type 0
AllSendable drop n [] = Unit
AllSendable drop n ((route, m) ∷ rest) = Sendable drop n route m × AllSendable drop n rest

with_reply_lem :
    (states : States) (route : NotifyRoute) (n : Notification)
    → (reply : Option ℕ) × (with_reply states route n ≡ record n { reply_to_message_id = reply })
unfolding with_reply
with_reply_lem states route n = elim (Bool-cases (text_eq route.channel channel_telegram)) [
  | inr e ↦ rw e (n.reply_to_message_id, refl)
  | inl e ↦ rw e (elim (Option-cases (get_channel_message_id states n.alert_id route.key)) [
    | inl q ↦ rw q (n.reply_to_message_id, refl)
    | inr (message, q) ↦ rw q (some message, refl)
  ])
]

-- What a route's notification takes over, from a notification that already has the route's fields.
abbrev Kept : Notification → Notification → Type 0
Kept n m =
    (m.state ≡ n.state)
    × (m.alert_id ≡ n.alert_id)
    × (m.channel ≡ n.channel)
    × (m.route_key ≡ n.route_key)
    × (m.external_ref ≡ n.external_ref)

with_reply-Kept :
    (states : States) (route : NotifyRoute) (n : Notification) → Kept n (with_reply states route n)
with_reply-Kept states route n =
    let (reply, e) = with_reply_lem states route n in rw e (refl, refl, refl, refl, refl)

resolved_for_route-Kept :
    (states : States) (route : NotifyRoute) (n m : Notification)
    → resolved_for_route states route n ≡ some m
    → Kept n m × (needs_ref false route ≡ true → has_ref m ≡ true)
unfolding resolved_for_route needs_ref
resolved_for_route-Kept states route n m h =
    let kept = with_reply-Kept states route n in ground arith

with_external_ref_lem :
    (states : States) (key : Text) (n : Notification)
    → (ref : Text) × (with_external_ref states key n ≡ record n { external_ref = ref })
unfolding with_external_ref
with_external_ref_lem states key n =
    elim (Bool-cases (not (is_empty (trim_space n.external_ref)))) [
      | inl e ↦ rw e (n.external_ref, refl)
      | inr e ↦ rw e (elim (Option-cases (get_channel_external_ref states n.alert_id key)) [
        | inl q ↦ rw q (n.external_ref, refl)
        | inr (ref, q) ↦ rw q (ref, refl)
      ])
    ]

with_external_ref-Kept :
    (states : States) (key : Text) (n : Notification)
    → let m = with_external_ref states key n in
      (m.state ≡ n.state)
      × (m.alert_id ≡ n.alert_id)
      × (m.channel ≡ n.channel)
      × (m.route_key ≡ n.route_key)
with_external_ref-Kept states key n =
    let (ref, e) = with_external_ref_lem states key n in rw e (refl, refl, refl, refl)

pub state_eq_iff : (a b : AlertState) → (state_eq a b ≡ true) ↔ (a ≡ b)
state_eq_iff unset unset = ground arith
state_eq_iff unset pending = ground arith
state_eq_iff unset firing = ground arith
state_eq_iff unset resolved = ground arith
state_eq_iff pending unset = ground arith
state_eq_iff pending pending = ground arith
state_eq_iff pending firing = ground arith
state_eq_iff pending resolved = ground arith
state_eq_iff firing unset = ground arith
state_eq_iff firing pending = ground arith
state_eq_iff firing firing = ground arith
state_eq_iff firing resolved = ground arith
state_eq_iff resolved unset = ground arith
state_eq_iff resolved pending = ground arith
state_eq_iff resolved firing = ground arith
state_eq_iff resolved resolved = ground arith

-- The notification with the fields of its route, before the references are looked up.
abbrev routed : Time → Notification → NotifyRoute → Notification
routed clock n route = record n {
  channel = route.channel;
  route_key = route.key;
  route_mode = route.mode;
  timestamp = if is_zero n.timestamp then clock else n.timestamp;
}

-- A route whose mode or channel asks for a reference, and the trackers of the queue.
prepare_notification-Sendable :
    (states : States) (clock : Time) (n : Notification) (route : NotifyRoute) (m : Notification)
    (drop : Bool)
    → prepare_notification states clock n route ≡ some m
    → should_drop_tracker drop route m ≡ false
    → Sendable drop n route m
unfolding prepare_notification should_drop_tracker needs_ref
prepare_notification-Sendable states clock n route m drop h d =
    let base = with_external_ref-Kept states route.key (routed clock n route) in
    let per_route = with_external_ref states route.key (routed clock n route) in
    elim (Bool-cases (state_eq per_route.state resolved)) [
      | inl e ↦
          let facts = resolved_for_route-Kept states route per_route m (rw e at h) in
          record {
            same_state = facts.0.0 ∙ base.0;
            same_alert = facts.0.1 ∙ base.1;
            on_channel = facts.0.2 ∙ base.2;
            on_key = facts.0.3 ∙ base.3;
            referenced = λ r needs. ground (arith, state_eq_iff m.state resolved);
          }
      | inr e ↦
          let same : per_route ≡ m = let whole : some per_route ≡ some m = rw e at h in cc in
          record {
            same_state = ap (λ k. k.state) (sym same) ∙ base.0;
            same_alert = ap (λ k. k.alert_id) (sym same) ∙ base.1;
            on_channel = ap (λ k. k.channel) (sym same) ∙ base.2;
            on_key = ap (λ k. k.route_key) (sym same) ∙ base.3;
            referenced = λ r needs. ground (arith, state_eq_iff per_route.state resolved, base.0);
          }
    ]

-- Whatever the routes of a rule and the state of the engine are, every notification that is let
-- through carries the alert and the state of the given one and the channel and the key of its route;
-- and a resolved one has an external reference where the route's mode is active_only, on Mattermost,
-- and, for deliveries out of the queue, on Jira and YouTrack.
pub route_notifications-Sendable :
    (u : Unicode) (states : States) (clock : Time) (n : Notification) (drop : Bool)
    (routes : List RuleNotifyRoute)
    → AllSendable drop n (route_notifications u states clock n drop routes)
unfolding route_notifications
route_notifications-Sendable u states clock n drop [] = tt
route_notifications-Sendable u states clock n drop (r ∷ routes) =
    let rest = route_notifications-Sendable u states clock n drop routes in
    elim (Option-cases (normalized_notify_route u r true)) [
      | inl e ↦ rw (AllSendable, e) rest
      | inr (route, e) ↦
          rw (AllSendable, e)
            (elim (Option-cases (prepare_notification states clock n route)) [
              | inl q ↦ rw (AllSendable, q) rest
              | inr (m, q) ↦
                  rw (AllSendable, q)
                    (elim (Bool-cases (should_drop_tracker drop route m)) [
                      | inl d ↦ rw (AllSendable, d) rest
                      | inr d ↦
                          rw (AllSendable, d)
                            (prepare_notification-Sendable states clock n route m drop q d, rest)
                    ])
            ])
    ]
