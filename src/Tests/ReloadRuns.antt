-- ===== src/Tests/ReloadRuns.antt =====
-- The reload of a running service at concrete inputs.
use malert.Service.{ServiceWorld, Service, reload_config, apply_failed}
use malert.Tests.Worlds.{sample_world, sample_app, plain_unicode, sample_settings}
use malert.Base.{
  lookup, insert, Text, codes, ℕ, suc, ◌+◌, ◌-◌, ◌≡◌, refl, ◌⊎◌, inl, inr, true, none, some, List,
  [], ◌∷◌, arith, is_space, trim_space, is_empty, ascii_lower, to_lower,
}
use malert.Service.Handles.{HandleLaws, handles, reload_config-handles}
use malert.Service.Reload.{Consistent, reload_config-Consistent}
use malert.Tests.ConfigRuns.{sample_config, sample_notify}
use malert.Tests.QueueRuns.{sample_queue}
use malert.Manager.App.{World, store_failed}
use malert.State.Interface.{memory_store}
use malert.State.Memory.{not_found, err}

inr_ne : {A : Type 0} {B : Type 0} {a : A} {b : B} → Path (A ⊎ B) (inr b) (inl a) → ⊥
inr_ne h = cc

-- A world that counts the open handles; every configuration that it loads has the queue on.
abbrev reload_world : ServiceWorld ℕ ℕ ℕ (List Text)
reload_world = record {
  manager_world = sample_world;
  load_snapshot = λ n. (
    n,
    inr (record sample_config {
      service = record sample_config.service { mode = codes "nats" };
      notify = record sample_notify { queue = record sample_queue { enabled = true } };
    }),
  );
  new_dispatcher = λ cfg. cfg.telegram.bot_token ∷ [];
  new_producer = λ n cfg. (suc n, inr 7);
  new_worker = λ n cfg. (suc n, inr 8);
  close_producer = λ n p. n - 1;
  close_worker = λ n x. n - 1;
  same_ui = λ a b. true;
}

abbrev running_service : Service sample_world ℕ ℕ (List Text)
running_service = record {
  cfg = record sample_config { service = record sample_config.service { mode = codes "nats" } };
  manager = sample_app;
  notify_pub = some 1;
  notify_q = some 2;
  ui_reload_warned = true;
  dispatcher = [];
  queue_producer = some 1;
}

abbrev counted_handles : HandleLaws reload_world
counted_handles = record {
  live = λ n. n;
  loads = λ n. refl;
  producer_starts = λ n cfg p e. refl;
  producer_fails = λ n cfg e h. absurd (inr_ne h);
  worker_starts = λ n cfg x e. refl;
  worker_fails = λ n cfg e h. absurd (inr_ne h);
  producer_closes = λ n p. refl;
  worker_closes = λ n x. refl;
}

reload_config-Consistent_example :
    Consistent reload_world running_service
      (reload_world.load_snapshot 2).1
      (reload_config reload_world running_service 2)
reload_config-Consistent_example = reload_config-Consistent reload_world running_service 2

reload_config-handles_example :
    (let (later, after_all, failure) = reload_config reload_world running_service 2 in
      after_all + 2 ≡ 2 + handles reload_world later.notify_pub later.notify_q)
reload_config-handles_example =
    reload_config-handles reload_world counted_handles running_service 2 (omega arith)

-- The reload succeeds with the new producer, and the old pair is closed.
reload_run :
    (let (later, after_all, failure) = reload_config reload_world running_service 2 in
      (later.queue_producer ≡ some 7) × (after_all ≡ 2) × (failure ≡ none))
unfolding reload_config is_empty to_lower trim_space is_space ascii_lower lookup insert
reload_run = (refl, refl, refl)

-- A manager whose store does not list its cards: the rule that is gone cannot be cleaned up.
abbrev unlisted_world : World
unlisted_world = record sample_world {
  store = record (memory_store plain_unicode 90000000000) {
    list_alert_ids_by_rule = λ b name. (b, err not_found);
  };
}

abbrev stuck_world : ServiceWorld ℕ ℕ ℕ (List Text)
stuck_world = record {
  manager_world = unlisted_world;
  load_snapshot = λ n. (
    n,
    inr (record sample_config {
      service = record sample_config.service { mode = codes "nats" };
      notify = record sample_notify { queue = record sample_queue { enabled = true } };
      rule = [];
    }),
  );
  new_dispatcher = λ cfg. [];
  new_producer = λ n cfg. (suc n, inr 7);
  new_worker = λ n cfg. (suc n, inr 8);
  close_producer = λ n p. n - 1;
  close_worker = λ n x. n - 1;
  same_ui = λ a b. true;
}

abbrev stuck_service : Service unlisted_world ℕ ℕ (List Text)
stuck_service = record {
  cfg = record sample_config { service = record sample_config.service { mode = codes "nats" } };
  manager = record {
    settings = sample_settings;
    engine = [];
    backend = sample_app.backend;
    outbox = [];
    clock = 95000000000;
  };
  notify_pub = some 1;
  notify_q = some 2;
  ui_reload_warned = true;
  dispatcher = [];
  queue_producer = some 1;
}

-- A reload whose ApplyConfig fails: the new pair is closed, and the manager has no rules any more.
stuck_run :
    (let (later, after_all, failure) = reload_config stuck_world stuck_service 2 in
      (later.queue_producer ≡ some 1)
      × (after_all ≡ 2)
      × (later.manager.settings.rules ≡ [])
      × (failure ≡ some (apply_failed (store_failed not_found))))
unfolding reload_config is_empty to_lower trim_space is_space ascii_lower lookup insert
stuck_run = (refl, refl, refl, refl)
