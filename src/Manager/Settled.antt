-- ===== src/Manager/Settled.antt =====
-- internal/app/manager.go: `ApplyConfig` installs the new configuration before it cleans up after the
-- rules that are gone, and nothing in the cleaning up changes it back.
use malert.Manager.App.{
  World, App, Outcome, done, failed, Run, after, and_then, Settings, ask_store, or_fail, read_now,
}
use malert.Manager.Closing.{drop_alert, close_removed, cleanup_ids, cleanup_removed_rule}
use malert.Manager.Rules.{cleanup_missing, apply_config, with_rules}
use malert.Manager.Quiet.{dispatch_notification-Quiet}
use malert.Domain.{AlertCard}
use malert.Base.{Bool-cases, Time, Assoc, has_key, Text, ℕ, ◌≡◌, refl, ◌∙◌, inl, inr, List, [], ◌∷◌}
use malert.Manager.Notice.{build_resolved_card_notification}
use malert.Config.Rule.{RuleConfig}
use malert.State.Memory.{Result, ok, err}
use malert.Engine.State.{is_active}
use malert.Engine.Run.{run}

module _ {w : World} where
  -- Calls after which the settings are what they were.
  abbrev Settled : {A : Type 0} → Run w A → Type 0
  Settled run = (app : App w) → (run app).0.settings ≡ app.settings

  after-settings :
      {A B : Type 0} (p : App w × Outcome A) (f : A → Run w B)
      → ((x : A) → Settled (f x))
      → (after p f).0.settings ≡ p.0.settings
  after-settings (app, done x) f h = h x app
  after-settings (app, failed e) f h = refl

  Settled-and_then :
      {A B : Type 0} (m : Run w A) (f : A → Run w B)
      → Settled m
      → ((x : A) → Settled (f x))
      → Settled (and_then m f)
  Settled-and_then m f s h app = after-settings (m app) f h ∙ s app

  Settled-or_fail : {A : Type 0} (r : Result A) → Settled (or_fail r)
  Settled-or_fail (ok x) app = refl
  Settled-or_fail (err e) app = refl

  Settled-drop_alert : (id : Text) → Settled (drop_alert id)
  unfolding drop_alert
  Settled-drop_alert id app = refl

  Settled-close_removed :
      (rule : RuleConfig) (id : Text) (card : AlertCard) (now : Time)
      → Settled (close_removed rule id card now)
  unfolding close_removed build_resolved_card_notification
  Settled-close_removed rule id card now app = elim (Bool-cases (is_active card.state)) [
    | inl e ↦ rw e (dispatch_notification-Quiet rule _ rule.notify.route _ refl).1
    | inr e ↦ rw e refl
  ]

  Settled-read :
      (rule : RuleConfig) (id : Text) (now : Time) (rest : Run w (Unit {0}))
      (found : Result (AlertCard × ℕ))
      → Settled rest
      → Settled (elim found [
        | err e ↦ rest
        | ok card ↦
            and_then (close_removed rule id card.0 now) (λ x. and_then (drop_alert id) (λ y. rest))
      ])
  Settled-read rule id now rest (err e) h = h
  Settled-read rule id now rest (ok card) h =
      Settled-and_then (close_removed rule id card.0 now) _
        (Settled-close_removed rule id card.0 now)
        (λ x. Settled-and_then (drop_alert id) _ (Settled-drop_alert id) (λ y. h))

  Settled-cleanup_ids :
      (rule : RuleConfig) (now : Time) (ids : List Text) → Settled (cleanup_ids rule now ids)
  unfolding cleanup_ids
  Settled-cleanup_ids rule now [] app = refl
  Settled-cleanup_ids rule now (id ∷ ids) app =
      let rest : Run w (Unit {0}) = cleanup_ids rule now ids in
      let asked : Run w (Result (AlertCard × ℕ)) = ask_store (λ b. w.store.get_card b id) in
      Settled-and_then {B = Unit {0}} asked
        (λ found. elim found [
          | err e ↦ rest
          | ok card ↦
              and_then (close_removed rule id card.0 now)
                (λ x. and_then (drop_alert id) (λ y. rest))
        ])
        (λ a. refl)
        (λ found. Settled-read rule id now rest found (Settled-cleanup_ids rule now ids)) app

  Settled-cleanup_removed_rule : (rule : RuleConfig) → Settled (cleanup_removed_rule rule)
  unfolding cleanup_removed_rule
  Settled-cleanup_removed_rule rule =
      let asked : Run w (Result (List Text)) =
        ask_store (λ b. w.store.list_alert_ids_by_rule b rule.name) in
      let clean : List Text → Time → Run w (Unit {0}) = λ ids now. cleanup_ids rule now ids in
      Settled-and_then (and_then asked or_fail) (λ ids. and_then read_now (clean ids))
        (Settled-and_then asked or_fail (λ app. refl) Settled-or_fail)
        (λ ids.
          Settled-and_then read_now (clean ids) (λ app. refl)
            (λ now. Settled-cleanup_ids rule now ids))

  Settled-cleanup_missing : (rules : Assoc RuleConfig) → Settled (cleanup_missing rules)
  unfolding cleanup_missing
  Settled-cleanup_missing [] app = refl
  Settled-cleanup_missing ((name, rule) ∷ rules) app =
      elim (Bool-cases (has_key name app.settings.rules)) [
        | inl e ↦ rw e (Settled-cleanup_missing rules app)
        | inr e ↦ rw e (
            Settled-and_then (cleanup_removed_rule rule) (λ x. cleanup_missing rules)
              (Settled-cleanup_removed_rule rule) (λ x. Settled-cleanup_missing rules) app)
      ]

  -- Whether or not it fails, ApplyConfig leaves the manager with the new configuration, its dispatcher
  -- and its producer as they were.
  pub apply_config-settings :
      (settings : Settings) (input : List RuleConfig) (app : App w)
      → (apply_config settings input app).0.settings
        ≡ record (with_rules w.unicode settings input) {
          has_dispatcher = app.settings.has_dispatcher;
          has_producer = app.settings.has_producer;
        }
  unfolding apply_config
  apply_config-settings settings input app = Settled-cleanup_missing app.settings.rules _
