-- ===== src/Manager/Quiet.antt =====
-- internal/app/manager.go: sending a notification of a resolve touches no card and no tick.
use malert.Domain.{Notification, resolved}
use malert.Base.{
  Bool-cases, is_zero, ◌≡◌, refl, ◌∙◌, inl, inr, Bool, not, List, [], ◌∷◌, ◌⊎◌, false, ◌==◌, true,
  ◌&&◌, if◌then◌else◌,
}
use malert.Manager.Routes.{NotifyRoute, route_notifications}
use malert.Manager.Delivery.{
  stamp, send_all, notify_routes, enqueue_all, RouteSendResult, apply_delivery_results,
  enqueue_notification_jobs, dispatch_notification, should_skip_by_off,
}
use malert.Manager.App.{
  World, App, Outcome, done, failed, Run, after, SendResult, SendOutcome, sent, not_sent,
}
use malert.Config.Rule.{RuleNotifyRoute, RuleConfig}

SendOutcome-cases :
    (o : SendOutcome)
    → ((result : SendResult) × (o ≡ sent result)) ⊎ ((permanent : Bool) × (o ≡ not_sent permanent))
SendOutcome-cases (sent result) = inl (result, refl)
SendOutcome-cases (not_sent permanent) = inr (permanent, refl)

module _ {w : World} where
  -- The calls between the two left the store and the settings alone.
  abbrev pub Quiet : App w → App w → Type 0
  Quiet app out = (out.backend ≡ app.backend) × (out.settings ≡ app.settings)

  Quiet-trans : (a b c : App w) → Quiet a b → Quiet b c → Quiet a c
  Quiet-trans a b c p q = (q.0 ∙ p.0, q.1 ∙ p.1)

  Quiet-after :
      {A B : Type 0} (app : App w) (p : App w × Outcome A) (f : A → Run w B)
      → Quiet app p.0
      → ((x : A) (a : App w) → Quiet a (f x a).0)
      → Quiet app (after p f).0
  Quiet-after app (out, done x) f q h = Quiet-trans app out (f x out).0 q (h x out)
  Quiet-after app (out, failed e) f q h = q

  Quiet-if :
      {A : Type 0} (app : App w) (b : Bool) (p q : App w × Outcome A)
      → Quiet app p.0
      → Quiet app q.0
      → Quiet app (if b then p else q).0
  Quiet-if app true p q hp hq = hp
  Quiet-if app false p q hp hq = hq

  Quiet-stamp : (n : Notification) (app : App w) → Quiet app (stamp n app).0
  Quiet-stamp n app = elim (Bool-cases (is_zero n.timestamp)) [
    | inl e ↦ rw (Quiet, e) (refl, refl)
    | inr e ↦ rw (Quiet, e) (refl, refl)
  ]

  Quiet-send_all :
      (entries : List (NotifyRoute × Notification)) (app : App w)
      → Quiet app (send_all entries app).0
  unfolding send_all
  Quiet-send_all [] app = (refl, refl)
  Quiet-send_all ((route, n) ∷ rest) app =
      let outcome = w.send app.outbox route.channel route.template n in
      elim (SendOutcome-cases outcome.1) [
        | inr (permanent, e) ↦ rw (Quiet, send_all, e) (refl, refl)
        | inl (result, e) ↦
            rw (Quiet, send_all, e)
              (Quiet-after app (send_all rest (record app { outbox = outcome.0 })) _
                (Quiet-send_all rest (record app { outbox = outcome.0 }))
                (λ results a. (refl, refl)))
      ]

  Quiet-enqueue_all :
      (entries : List (NotifyRoute × Notification)) (app : App w)
      → Quiet app (enqueue_all entries app).0
  unfolding enqueue_all
  Quiet-enqueue_all [] app = (refl, refl)
  Quiet-enqueue_all ((route, n) ∷ rest) app =
      Quiet-after app _ _ (Quiet-enqueue_all rest _) (λ counts a. (refl, refl))

  Quiet-notify_routes :
      (n : Notification) (routes : List RuleNotifyRoute) (drop : Bool) (app : App w)
      → Quiet app (notify_routes n routes drop app).0
  unfolding notify_routes
  Quiet-notify_routes n routes drop app = elim (Bool-cases (not app.settings.has_dispatcher)) [
    | inl e ↦ rw (Quiet, e) (refl, refl)
    | inr e ↦
        rw e (Quiet-after app (stamp n app) _ (Quiet-stamp n app) (λ clock a. Quiet-send_all _ a))
  ]

  Quiet-enqueue_notification_jobs :
      (n : Notification) (routes : List RuleNotifyRoute) (app : App w)
      → Quiet app (enqueue_notification_jobs n routes app).0
  unfolding enqueue_notification_jobs
  Quiet-enqueue_notification_jobs n routes app =
      Quiet-after app (stamp n app) _ (Quiet-stamp n app) (λ clock next.
        Quiet-after next
          (enqueue_all (route_notifications w.unicode next.engine clock n false routes) next) _
          (Quiet-enqueue_all (route_notifications w.unicode next.engine clock n false routes) next)
          (λ counts a. elim (Bool-cases ((counts.0 == 0) && counts.1)) [
            | inl e ↦ rw (Quiet, e) (refl, refl)
            | inr e ↦ rw (Quiet, e) (refl, refl)
          ]))

  Quiet-apply_delivery_results :
      (n : Notification) (results : List RouteSendResult) (app : App w)
      → n.state ≡ resolved
      → Quiet app (apply_delivery_results n results app).0
  unfolding apply_delivery_results
  Quiet-apply_delivery_results n results app r = rw r (refl, refl)

  -- Whatever the rule's routes are, and whether or not the sending succeeds: a notification of a
  -- resolve leaves the store and the settings as they were.
  pub dispatch_notification-Quiet :
      (rule : RuleConfig) (n : Notification) (routes : List RuleNotifyRoute) (app : App w)
      → n.state ≡ resolved
      → Quiet app (dispatch_notification rule n routes app).0
  unfolding dispatch_notification
  dispatch_notification-Quiet rule n routes app r =
      Quiet-after app (stamp n app) _ (Quiet-stamp n app) (λ at next.
        Quiet-if next (should_skip_by_off w rule at) _ _ (refl, refl)
          (Quiet-if next next.settings.has_producer _ _
            (Quiet-enqueue_notification_jobs n routes next)
            (Quiet-after next (notify_routes n routes false next) (apply_delivery_results n)
              (Quiet-notify_routes n routes false next)
              (λ results a. Quiet-apply_delivery_results n results a r))))
