-- ===== src/Service/Handles.antt =====
-- internal/app/service.go: a reload leaves no producer and no worker behind.
use malert.Service.{
  ServiceWorld, Service, QueueRuntime, is_single_mode, close_runtime, with_worker, with_producer,
  build_notify_queue_runtime, Reloaded, install, after_apply, after_build, kept_ui, keep_ui,
  after_load, reload_config,
}
use malert.Permanent.{GoError}
use malert.Base.{
  Bool-cases, before, ℕ, suc, ◌+◌, ◌-◌, ◌≤◌, ◌≡◌, refl, ap, ◌∙◌, ◌⊎◌, inl, inr, not, ◌||◌, Option,
  none, some, arith, Bool, true, false,
}
use malert.Config.Service.{Config}
use malert.Config.Notify.{NotifyQueue}
use malert.Engine.Matcher.{bool_eq}
use malert.Manager.App.{App, Outcome, done, failed}

module _ {N P W D : Type 0} (w : ServiceWorld N P W D) where
  -- What the calls do to the number of producers and workers that are open.
  pub record HandleLaws : Type 0 where
    pub live : N → ℕ
    pub loads : (n : N) → live (w.load_snapshot n).0 ≡ live n
    pub producer_starts :
        (n : N) (cfg : NotifyQueue) (p : P)
        → (w.new_producer n cfg).1 ≡ inr p
        → live (w.new_producer n cfg).0 ≡ suc (live n)
    pub producer_fails :
        (n : N) (cfg : NotifyQueue) (e : GoError)
        → (w.new_producer n cfg).1 ≡ inl e
        → live (w.new_producer n cfg).0 ≡ live n
    pub worker_starts :
        (n : N) (cfg : NotifyQueue) (x : W)
        → (w.new_worker n cfg).1 ≡ inr x
        → live (w.new_worker n cfg).0 ≡ suc (live n)
    pub worker_fails :
        (n : N) (cfg : NotifyQueue) (e : GoError)
        → (w.new_worker n cfg).1 ≡ inl e
        → live (w.new_worker n cfg).0 ≡ live n
    pub producer_closes : (n : N) (p : P) → live (w.close_producer n p) ≡ live n - 1
    pub worker_closes : (n : N) (x : W) → live (w.close_worker n x) ≡ live n - 1

  abbrev pub counted : {A : Type 0} → Option A → ℕ
  counted none = 0
  counted (some a) = 1

  -- How many handles a service holds.
  abbrev pub handles : Option P → Option W → ℕ
  handles p x = counted p + counted x

  module _ (laws : HandleLaws) where
    close_runtime-live :
        (n : N) (p : Option P) (x : Option W)
        → laws.live (close_runtime w n (record { producer = p; worker = x }))
          ≡ laws.live n - handles p x
    unfolding close_runtime
    close_runtime-live n none none = omega arith
    close_runtime-live n (some p) none = laws.producer_closes n p
    close_runtime-live n none (some x) = laws.worker_closes n x
    close_runtime-live n (some p) (some x) =
        omega (arith, laws.producer_closes (w.close_worker n x) p, laws.worker_closes n x)

    -- What is built is open: an error leaves nothing.
    abbrev Built : ℕ → N × (GoError ⊎ QueueRuntime P W) → Type 0
    Built before (n, inl e) = laws.live n ≡ before
    Built before (n, inr next) = laws.live n ≡ before + handles next.producer next.worker

    with_worker-Built :
        (before : ℕ) (p : P) (started : N × (GoError ⊎ W))
        → ((e : GoError) → started.1 ≡ inl e → laws.live started.0 ≡ suc before)
        → ((x : W) → started.1 ≡ inr x → laws.live started.0 ≡ suc (suc before))
        → Built before (with_worker w p started)
    unfolding with_worker
    with_worker-Built before p (n, inl e) fails starts =
        omega (arith, laws.producer_closes n p, fails e refl)
    with_worker-Built before p (n, inr x) fails starts = omega (arith, starts x refl)

    with_producer-Built :
        (before : ℕ) (cfg : NotifyQueue) (started : N × (GoError ⊎ P))
        → ((e : GoError) → started.1 ≡ inl e → laws.live started.0 ≡ before)
        → ((p : P) → started.1 ≡ inr p → laws.live started.0 ≡ suc before)
        → Built before (with_producer w cfg started)
    unfolding with_producer
    with_producer-Built before cfg (n, inl e) fails starts = fails e refl
    with_producer-Built before cfg (n, inr p) fails starts =
        with_worker-Built before p (w.new_worker n cfg)
          (λ e h. laws.worker_fails n cfg e h ∙ starts p refl)
          (λ x h. laws.worker_starts n cfg x h ∙ ap suc (starts p refl))

    build_notify_queue_runtime-Built :
        (n : N) (cfg : Config) → Built (laws.live n) (build_notify_queue_runtime w n cfg)
    unfolding build_notify_queue_runtime
    build_notify_queue_runtime-Built n cfg =
        elim (Bool-cases (is_single_mode w cfg || not cfg.notify.queue.enabled)) [
          | inl e ↦ rw e (omega arith)
          | inr e ↦ rw e (
              with_producer-Built (laws.live n) cfg.notify.queue (w.new_producer n cfg.notify.queue)
                (laws.producer_fails n cfg.notify.queue) (laws.producer_starts n cfg.notify.queue))
        ]

    -- The handles that the service holds are open, and as many others as before.
    abbrev Balanced : ℕ → Service w.manager_world P W D → Reloaded w → Type 0
    Balanced before s (later, n, failure) =
        laws.live n + handles s.notify_pub s.notify_q
        ≡ before + handles later.notify_pub later.notify_q

    after_apply-Balanced :
        (before : ℕ) (s : Service w.manager_world P W D) (cfg : Config) (next : QueueRuntime P W)
        (n : N) (applied : App w.manager_world × Outcome (Unit {0}))
        → handles s.notify_pub s.notify_q ≤ before
        → laws.live n ≡ before + handles next.producer next.worker
        → Balanced before s (after_apply w s cfg next n applied)
    unfolding after_apply install
    after_apply-Balanced before s cfg next n (app, failed e) held h =
        omega (arith, close_runtime-live n next.producer next.worker, h)
    after_apply-Balanced before s cfg next n (app, done x) held h =
        omega (arith, close_runtime-live n s.notify_pub s.notify_q, h, held)

    after_build-Balanced :
        (before : ℕ) (s : Service w.manager_world P W D) (cfg : Config)
        (built : N × (GoError ⊎ QueueRuntime P W))
        → handles s.notify_pub s.notify_q ≤ before
        → Built before built
        → Balanced before s (after_build w s cfg built)
    unfolding after_build
    after_build-Balanced before s cfg (n, inl e) held h = omega (arith, h)
    after_build-Balanced before s cfg (n, inr next) held h =
        after_apply-Balanced before s cfg next n _ held h

    after_kept-Balanced :
        (same : Bool) (s : Service w.manager_world P W D) (n : N) (cfg : Config)
        → handles s.notify_pub s.notify_q ≤ laws.live n
        → (let (warned, kept) = kept_ui w same s cfg in
            Balanced
              (laws.live n)
              s
              (after_build w warned kept (build_notify_queue_runtime w n kept)))
    unfolding kept_ui
    after_kept-Balanced true s n cfg held =
        after_build-Balanced (laws.live n) (record s { ui_reload_warned = false }) cfg _ held
          (build_notify_queue_runtime-Built n cfg)
    after_kept-Balanced false s n cfg held =
        after_build-Balanced (laws.live n) (record s { ui_reload_warned = true })
          (record cfg { ui = s.cfg.ui }) _ held
          (build_notify_queue_runtime-Built n (record cfg { ui = s.cfg.ui }))

    after_load-Balanced :
        (s : Service w.manager_world P W D) (loaded : N × (GoError ⊎ Config))
        → handles s.notify_pub s.notify_q ≤ laws.live loaded.0
        → Balanced (laws.live loaded.0) s (after_load w s loaded)
    unfolding after_load keep_ui
    after_load-Balanced s (n, inl e) held = refl
    after_load-Balanced s (n, inr cfg) held =
        elim (Bool-cases (bool_eq (is_single_mode w cfg) (is_single_mode w s.cfg))) [
          | inl e ↦ rw e (after_kept-Balanced (w.same_ui cfg.ui s.cfg.ui) s n cfg held)
          | inr e ↦ rw e refl
        ]

    -- Where the producer and the worker of the service are open, a reload, whether it fails or not,
    -- closes what it opened and does not keep, and what it replaces: as many other handles are open
    -- after it as before.
    pub reload_config-handles :
        (s : Service w.manager_world P W D) (n : N)
        → handles s.notify_pub s.notify_q ≤ laws.live n
        → (let (later, after_all, failure) = reload_config w s n in
            laws.live after_all + handles s.notify_pub s.notify_q
            ≡ laws.live n + handles later.notify_pub later.notify_q)
    unfolding reload_config
    reload_config-handles s n held =
        omega
          (arith, laws.loads n, after_load-Balanced s (w.load_snapshot n) (rw (laws.loads n) held))
