-- ===== src/Service.antt =====
-- internal/app/service.go: the configuration is reloaded while the service runs. The logger leaves no
-- trace. The locks make each read or write of a field one step; reloads follow one another.
pub mod Reload
pub mod Handles
use malert.Permanent.{GoError, plain}
use malert.Base.{
  codes, text_eq, Unicode, ◌⊎◌, inl, inr, Bool, true, false, not, ◌||◌, Option, none, some,
  if◌then◌else◌, is_some, [],
}
use malert.Config.Service.{UiConfig, Config}
use malert.Config.Channels.{normalize_service_mode, service_mode_single}
use malert.Config.Notify.{NotifyQueue, NotifyConfig}
use malert.Engine.Matcher.{bool_eq}
use malert.Manager.App.{World, Settings, App, AppError, Outcome, done, failed}
use malert.Manager.Rules.{apply_config}

-- The calls of the other components, with the state N of the world outside: P and W are producers and
-- workers of the notification queue, D is a dispatcher. `load_snapshot` is config.LoadSnapshot of
-- the service's source; `same_ui` is reflect.DeepEqual. Errors of Close are not looked at. The world
-- of the manager, with its store, has a state of its own, and its Unicode tables are used here too.
pub record ServiceWorld (N P W D : Type 0) : Type 1 where
  pub manager_world : World
  pub load_snapshot : N → N × (GoError ⊎ Config)
  pub new_dispatcher : NotifyConfig → D
  pub new_producer : N → NotifyQueue → N × (GoError ⊎ P)
  pub new_worker : N → NotifyQueue → N × (GoError ⊎ W)
  pub close_producer : N → P → N
  pub close_worker : N → W → N
  pub same_ui : UiConfig → UiConfig → Bool

-- The fields of `Service` that a reload reads or writes: the manager is here with its settings, its
-- engine and its surroundings, and with the dispatcher and the producer that it was given.
pub record Service (m : World) (P W D : Type 0) : Type 0 where
  pub cfg : Config
  pub manager : App m
  pub notify_pub : Option P
  pub notify_q : Option W
  pub ui_reload_warned : Bool
  pub dispatcher : D
  pub queue_producer : Option P

-- The producer and the worker of the queue, nil where the queue is off.
pub record QueueRuntime (P W : Type 0) : Type 0 where
  pub producer : Option P
  pub worker : Option W

-- The fields of a configuration that the manager reads; ApplyConfig builds the indexes of the rules
-- and keeps the dispatcher and the producer.
unfoldable pub settings_of : Config → Settings
settings_of cfg = record {
  rules = [];
  sorted = [];
  repeat = cfg.notify.repeat;
  repeat_every_sec = cfg.notify.repeat_every_sec;
  repeat_per_channel = cfg.notify.repeat_per_channel;
  on_pending = cfg.notify.on_pending;
  runtime_state_idle_sec = cfg.service.runtime_state_idle_sec;
  runtime_state_max = cfg.service.runtime_state_max;
  has_dispatcher = false;
  has_producer = false;
}

-- An error of a reload: one that ApplyConfig returned, or one from before it.
pub data ReloadError : Type 0 where
  not_applied : GoError → ReloadError
  apply_failed : AppError → ReloadError

-- `SetDispatcher` and `SetQueueProducer`, as far as the manager's own state goes.
unfoldable pub set_clients : {m : World} {P : Type 0} → Option P → App m → App m
set_clients producer app = record app {
  settings = record app.settings { has_dispatcher = true; has_producer = is_some producer };
}

module _ {N P W D : Type 0} (w : ServiceWorld N P W D) where
  -- `isSingleMode`.
  unfoldable pub is_single_mode : Config → Bool
  unfolding normalize_service_mode text_eq
  is_single_mode cfg =
      text_eq (normalize_service_mode w.manager_world.unicode cfg.service.mode) service_mode_single

  -- The closing of what may be nil.
  unfoldable pub close_runtime : N → QueueRuntime P W → N
  close_runtime n old =
      let without_worker : N = elim old.worker [
        | none ↦ n
        | some worker ↦ w.close_worker n worker
      ] in
      elim old.producer [
        | none ↦ without_worker
        | some producer ↦ w.close_producer without_worker producer
      ]

  -- The worker of a producer, which is closed where the worker does not start.
  unfoldable pub with_worker : P → N × (GoError ⊎ W) → N × (GoError ⊎ QueueRuntime P W)
  with_worker producer (n, inl e) = (w.close_producer n producer, inl e)
  with_worker producer (n, inr worker) =
      (n, inr (record { producer = some producer; worker = some worker }))

  unfoldable pub with_producer : NotifyQueue → N × (GoError ⊎ P) → N × (GoError ⊎ QueueRuntime P W)
  unfolding with_worker
  with_producer cfg (n, inl e) = (n, inl e)
  with_producer cfg (n, inr producer) = with_worker producer (w.new_worker n cfg)

  -- `buildNotifyQueueRuntime`.
  unfoldable pub build_notify_queue_runtime : N → Config → N × (GoError ⊎ QueueRuntime P W)
  unfolding is_single_mode with_producer
  build_notify_queue_runtime n cfg =
      if is_single_mode cfg || not cfg.notify.queue.enabled
      then (n, inr (record { producer = none; worker = none }))
      else with_producer cfg.notify.queue (w.new_producer n cfg.notify.queue)

  -- A reload ends with the service, the world and an error if there was one.
  abbrev pub Reloaded : Type 0
  Reloaded = Service w.manager_world P W D × N × Option ReloadError

  -- `swapNotifyRuntime`, `SetDispatcher`, `SetQueueProducer` and `setConfig`.
  unfoldable pub install :
      Service w.manager_world P W D → Config → QueueRuntime P W → Service w.manager_world P W D
  install s cfg next = record s {
    cfg = cfg;
    manager = set_clients next.producer s.manager;
    notify_pub = next.producer;
    notify_q = next.worker;
    dispatcher = w.new_dispatcher cfg.notify;
    queue_producer = next.producer;
  }

  -- The service whose manager was changed.
  abbrev pub with_manager :
      Service w.manager_world P W D → App w.manager_world → Service w.manager_world P W D
  with_manager s app = record s { manager = app }

  -- What follows ApplyConfig, which may fail after it changed the manager.
  unfoldable pub after_apply :
      Service w.manager_world P W D
      → Config
      → QueueRuntime P W
      → N
      → App w.manager_world × Outcome (Unit {0})
      → Reloaded
  unfolding close_runtime install
  after_apply s cfg next n (app, failed e) =
      (with_manager s app, close_runtime n next, some (apply_failed e))
  after_apply s cfg next n (app, done x) = (
    install (with_manager s app) cfg next,
    close_runtime n (record { producer = s.notify_pub; worker = s.notify_q }),
    none,
  )

  unfoldable pub after_build :
      Service w.manager_world P W D → Config → N × (GoError ⊎ QueueRuntime P W) → Reloaded
  unfolding after_apply settings_of apply_config
  after_build s cfg (n, inl e) = (s, n, some (not_applied e))
  after_build s cfg (n, inr next) =
      after_apply s cfg next n (apply_config (settings_of cfg) cfg.rule s.manager)

  -- The section ui of the running configuration stays, with one warning.
  unfoldable pub kept_ui :
      Bool → Service w.manager_world P W D → Config → Service w.manager_world P W D × Config
  kept_ui true s cfg = (record s { ui_reload_warned = false }, cfg)
  kept_ui false s cfg = (record s { ui_reload_warned = true }, record cfg { ui = s.cfg.ui })

  unfoldable pub keep_ui :
      Service w.manager_world P W D → Config → Service w.manager_world P W D × Config
  unfolding kept_ui
  keep_ui s cfg = kept_ui (w.same_ui cfg.ui s.cfg.ui) s cfg

  -- What follows the load.
  unfoldable pub after_load : Service w.manager_world P W D → N × (GoError ⊎ Config) → Reloaded
  unfolding is_single_mode keep_ui build_notify_queue_runtime after_build
  after_load s (n, inl e) = (s, n, some (not_applied e))
  after_load s (n, inr cfg) =
      if bool_eq (is_single_mode cfg) (is_single_mode s.cfg)
      then (let (warned, kept) = keep_ui s cfg in
          after_build warned kept (build_notify_queue_runtime n kept))
      else (s, n, some (not_applied (plain (codes "service.mode change requires restart"))))

  -- `reloadConfig`.
  unfoldable pub reload_config : Service w.manager_world P W D → N → Reloaded
  unfolding after_load
  reload_config s n = after_load s (w.load_snapshot n)
