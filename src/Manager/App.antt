-- ===== src/Manager/App.antt =====
-- internal/app/manager.go: the state of the manager, what it calls outside of it, and how a method
-- chains calls that may fail. The logger leaves no trace in the state.
use malert.Domain.{Notification}
use malert.Queue.Job.{Job}
use malert.Base.{Time, Assoc, Int64, Text, Unicode, ℕ, Bool, true, false, Option, List}
use malert.Config.Rule.{Regexp, RuleConfig}
use malert.State.Interface.{Store}
use malert.State.Memory.{StoreError, not_found, conflict, other_error, Result, ok, err}
use malert.Domain.Event.{Float64}
use malert.Engine.State.{States}
pub use malert.Notify.Retry.{SendResult}

-- What `Dispatcher.Send` returns: a result, or an error, which `notify.IsPermanent` may accept.
pub data SendOutcome : Type 0 where
  sent : SendResult → SendOutcome
  not_sent : Bool → SendOutcome

-- What is not code of this file: the store, the dispatcher and the queue producer, with a state of
-- their own that the manager cannot see, the clock, and functions of other packages. `local_time`
-- is the weekday and the minute of the day of `now.In(time.Local)`.
pub record World : Type 1 where
  pub store : Store
  pub Outbox : Type 0
  pub Clock : Type 0
  pub send : Outbox → Text → Text → Notification → Outbox × SendOutcome
  pub enqueue : Outbox → Job → Outbox × Bool
  pub read_clock : Clock → Clock × Time
  pub unicode : Unicode
  pub local_time : Time → ℕ × ℕ
  pub digest : Text → Text
  pub format_float : Float64 → Text
  pub compile_regexp : Text → Option Regexp
  pub compile_wildcard : Text → Option Regexp

-- The fields of `config.Config` that the manager reads, and whether its dispatcher and its producer
-- are set. `rules` and `sorted` are its two indexes of the rules.
pub record Settings : Type 0 where
  pub rules : Assoc RuleConfig
  pub sorted : List RuleConfig
  pub repeat : Bool
  pub repeat_every_sec : Int64
  pub repeat_per_channel : Bool
  pub on_pending : Bool
  pub runtime_state_idle_sec : Int64
  pub runtime_state_max : Int64
  pub has_dispatcher : Bool
  pub has_producer : Bool

-- `Manager`.
pub record App (w : World) : Type 0 where
  pub settings : Settings
  pub engine : States
  pub backend : w.store.Backend
  pub outbox : w.Outbox
  pub clock : w.Clock

pub data AppError : Type 0 where
  store_failed : StoreError → AppError
  send_failed : Bool → AppError
  enqueue_failed retries_exceeded queue_permanent panicked : AppError

pub data Outcome {ℓ} (A : Type ℓ) : Type ℓ where
  done : A → Outcome A
  failed : AppError → Outcome A

abbrev pub is_not_found : StoreError → Bool
is_not_found not_found = true
is_not_found conflict = false
is_not_found (other_error t) = false

abbrev pub is_conflict : StoreError → Bool
is_conflict not_found = false
is_conflict conflict = true
is_conflict (other_error t) = false

-- A method that may change the manager and its surroundings before it returns or fails.
abbrev pub Run {ℓ} : World → Type ℓ → Type ℓ
Run w A = App w → App w × Outcome A

module _ {w : World} where
  abbrev pub pure {ℓ} : {A : Type ℓ} → A → Run w A
  pure x app = (app, done x)

  abbrev pub fail {ℓ} : {A : Type ℓ} → AppError → Run w A
  fail e app = (app, failed e)

  -- What follows a call: its result goes on, and its error is returned at once.
  abbrev pub after {ℓ} : {A B : Type ℓ} → App w × Outcome A → (A → Run w B) → App w × Outcome B
  after (app, done x) f = f x app
  after (app, failed e) f = (app, failed e)

  abbrev pub and_then {ℓ} : {A B : Type ℓ} → Run w A → (A → Run w B) → Run w B
  and_then m f app = after (m app) f

  -- `_ = call` and the branches that only log an error: the result is dropped.
  abbrev pub ignored : App w × Outcome (Unit {0}) → App w × Outcome (Unit {0})
  ignored (app, r) = (app, done tt)

  abbrev pub ignoring : Run w (Unit {0}) → Run w (Unit {0})
  ignoring m app = ignored (m app)

  -- A call of the store.
  abbrev pub ask_store {ℓ} : {A : Type ℓ} → (w.store.Backend → w.store.Backend × A) → Run w A
  ask_store f app = (record app { backend = (f app.backend).0 }, done (f app.backend).1)

  -- A call whose every error is returned.
  abbrev pub or_fail {ℓ} : {A : Type ℓ} → Result A → Run w A
  or_fail (ok x) = pure x
  or_fail (err e) = fail (store_failed e)

  abbrev pub change_engine : (States → States) → Run w (Unit {0})
  change_engine f app = (record app { engine = f app.engine }, done tt)

  abbrev pub read_now : Run w Time
  read_now app =
      (record app { clock = (w.read_clock app.clock).0 }, done (w.read_clock app.clock).1)
