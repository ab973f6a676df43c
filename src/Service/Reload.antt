-- ===== src/Service/Reload.antt =====
-- internal/app/service.go: what a reload leaves when it fails and when it succeeds.
use malert.Service.{
  ServiceWorld, Service, QueueRuntime, is_single_mode, Reloaded, install, after_apply, after_build,
  keep_ui, after_load, kept_ui, reload_config, settings_of, not_applied, apply_failed, set_clients,
}
use malert.Permanent.{GoError}
use malert.Base.{
  Bool-cases, ◌≡◌, refl, ◌⊎◌, inl, inr, Bool, true, false, none, some, text_eq, sym, ap, ◌∙◌,
  is_some,
}
use malert.Config.Service.{Config}
use malert.Engine.Matcher.{bool_eq}
use malert.Config.Channels.{service_mode_single, normalize_service_mode}
use malert.Manager.App.{Settings, App, Outcome, done, failed}
use malert.Manager.Settled.{apply_config-settings}
use malert.Manager.Rules.{with_rules}

module _ {N P W D : Type 0} (w : ServiceWorld N P W D) where
  -- A configuration that a reload goes on with: the loaded one, of the same kind of mode as that of
  -- the service, and with the section ui of the service, or one that compares equal to it.
  abbrev pub Accepted : Service w.manager_world P W D → GoError ⊎ Config → Config → Type 0
  Accepted s outcome cfg =
      (loaded : Config) × (outcome ≡ inr loaded)
      × (cfg ≡ record loaded { ui = cfg.ui })
      × (is_single_mode w cfg ≡ is_single_mode w s.cfg)
      × ((cfg.ui ≡ s.cfg.ui) ⊎ (w.same_ui cfg.ui s.cfg.ui ≡ true))

  -- The settings that a manager takes from a configuration, with its own dispatcher and producer.
  abbrev pub settings_from : Config → Bool → Bool → Settings
  settings_from cfg dispatcher producer =
      record (with_rules w.manager_world.unicode (settings_of cfg) cfg.rule) {
        has_dispatcher = dispatcher;
        has_producer = producer;
      }

  -- What a reload leaves, by how it ends. With an error from before ApplyConfig: the service, its
  -- manager included, with at most the flag of the warning changed. With an error of ApplyConfig: the
  -- same but for the manager, whose settings are those of the new configuration. Without an error:
  -- the service and the manager with the new configuration, and the manager with the service's
  -- producer and the new dispatcher.
  pub Consistent : Service w.manager_world P W D → GoError ⊎ Config → Reloaded w → Type 0
  Consistent s outcome (later, n, some (not_applied e)) =
      later ≡ record s { ui_reload_warned = later.ui_reload_warned }
  Consistent s outcome (later, n, some (apply_failed e)) =
      (later ≡ record s { ui_reload_warned = later.ui_reload_warned; manager = later.manager })
      × ((cfg : Config) × Accepted s outcome cfg
          × (later.manager.settings
              ≡ settings_from cfg s.manager.settings.has_dispatcher
                  s.manager.settings.has_producer))
  Consistent s outcome (later, n, none) =
      Accepted s outcome later.cfg
      × (later.queue_producer ≡ later.notify_pub)
      × (later.dispatcher ≡ w.new_dispatcher later.cfg.notify)
      × (later.manager.settings ≡ settings_from later.cfg true (is_some later.notify_pub))

  after_apply-Consistent :
      (s warned : Service w.manager_world P W D) (outcome : GoError ⊎ Config) (cfg : Config)
      (next : QueueRuntime P W) (n : N) (applied : App w.manager_world × Outcome (Unit {0}))
      → warned ≡ record s { ui_reload_warned = warned.ui_reload_warned }
      → Accepted s outcome cfg
      → applied.0.settings
        ≡ settings_from cfg s.manager.settings.has_dispatcher s.manager.settings.has_producer
      → Consistent s outcome (after_apply w warned cfg next n applied)
  unfolding after_apply install Consistent set_clients
  after_apply-Consistent s warned outcome cfg next n (app, failed e) same new h =
      (ap {A = Service w.manager_world P W D} (λ t. record t { manager = app }) same, (cfg, new, h))
  after_apply-Consistent s warned outcome cfg next n (app, done x) same new h = (
    new,
    refl,
    refl,
    ap {A = Settings}
        (λ t. record t { has_dispatcher = true; has_producer = is_some next.producer }) h,
  )

  after_build-Consistent :
      (s warned : Service w.manager_world P W D) (outcome : GoError ⊎ Config) (cfg : Config)
      (built : N × (GoError ⊎ QueueRuntime P W))
      → warned ≡ record s { ui_reload_warned = warned.ui_reload_warned }
      → Accepted s outcome cfg
      → Consistent s outcome (after_build w warned cfg built)
  unfolding after_build Consistent
  after_build-Consistent s warned outcome cfg (n, inl e) same new = same
  after_build-Consistent s warned outcome cfg (n, inr next) same new =
      let manager : warned.manager ≡ s.manager = ap (λ t. t.manager) same in
      after_apply-Consistent s warned outcome cfg next n _ same new (
        apply_config-settings (settings_of cfg) cfg.rule warned.manager
        ∙ ap (λ app. settings_from cfg app.settings.has_dispatcher app.settings.has_producer)
            manager)

  kept_ui-same :
      (same : Bool) (s : Service w.manager_world P W D) (cfg : Config)
      → same ≡ w.same_ui cfg.ui s.cfg.ui
      → (let (warned, kept) = kept_ui w same s cfg in
          (warned ≡ record s { ui_reload_warned = warned.ui_reload_warned })
          × (kept ≡ record cfg { ui = kept.ui })
          × ((kept.ui ≡ s.cfg.ui) ⊎ (w.same_ui kept.ui s.cfg.ui ≡ true)))
  unfolding kept_ui
  kept_ui-same true s cfg e = (refl, refl, inr (sym e))
  kept_ui-same false s cfg e = (refl, refl, inl refl)

  single_mode-service :
      (a b : Config) → a.service ≡ b.service → is_single_mode w a ≡ is_single_mode w b
  unfolding is_single_mode
  single_mode-service a b h =
      ap
        (λ service.
          text_eq (normalize_service_mode w.manager_world.unicode service.mode) service_mode_single)
        h

  bool_eq-true : (a b : Bool) → bool_eq a b ≡ true → a ≡ b
  bool_eq-true true true h = refl
  bool_eq-true true false h = cc
  bool_eq-true false true h = cc
  bool_eq-true false false h = refl

  after_load-Consistent :
      (s : Service w.manager_world P W D) (loaded : N × (GoError ⊎ Config))
      → Consistent s loaded.1 (after_load w s loaded)
  unfolding after_load keep_ui Consistent
  after_load-Consistent s (n, inl e) = refl
  after_load-Consistent s (n, inr cfg) =
      elim (Bool-cases (bool_eq (is_single_mode w cfg) (is_single_mode w s.cfg))) [
        | inl e ↦
            let (warned, kept) = keep_ui w s cfg in
            let (same, loaded, ui) = kept_ui-same (w.same_ui cfg.ui s.cfg.ui) s cfg refl in
            let mode : is_single_mode w kept ≡ is_single_mode w s.cfg =
              single_mode-service kept cfg (ap (λ c. c.service) loaded) ∙ bool_eq-true _ _ e in
            rw e
              (after_build-Consistent s warned (inr cfg) kept _ same (cfg, refl, loaded, mode, ui))
        | inr e ↦ rw e refl
      ]

  -- A reload that fails before ApplyConfig changes at most the flag of the warning, in the service and
  -- its manager. One whose ApplyConfig fails keeps the configuration, the queue's producer and worker
  -- and the dispatcher of the service, but its manager already has the rules and the settings of the
  -- new configuration. One that succeeds leaves both with the loaded configuration, of the same kind
  -- of mode and with the section ui of before or one equal to it, and gives the manager the producer
  -- that the service holds and the new dispatcher.
  pub reload_config-Consistent :
      (s : Service w.manager_world P W D) (n : N)
      → Consistent s (w.load_snapshot n).1 (reload_config w s n)
  unfolding reload_config
  reload_config-Consistent s n = after_load-Consistent s (w.load_snapshot n)
