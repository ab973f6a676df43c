-- ===== src/Manager/Passes.antt =====
-- internal/app/manager.go: the passes over all rules, by an event, by the timer and by a new
-- configuration.
use malert.Domain.{firing, Notification, Decision}
use malert.Base.{
  Time, Duration, zero_time, is_zero, seconds, sub_time, leb_i64, ltb_i64, Text, codes, Bool, true,
  false, not, ◌&&◌, ◌||◌, Option, none, some, List, [], ◌∷◌, if◌then◌else◌,
}
use malert.Manager.Routes.{normalized_notify_route}
use malert.Manager.Delivery.{repeat_key_global, dispatch_notification}
use malert.Manager.App.{
  World, Settings, App, panicked, Run, pure, fail, and_then, ignoring, change_engine, read_now,
}
use malert.Manager.Decisions.{Pending, apply_decision, flush_tick_refresh}
use malert.Manager.Notice.{build_notification, should_drop_out_of_order}
use malert.Config.Rule.{RuleNotifyRoute, RuleConfig}
use malert.Domain.Event.{Event}
use malert.Engine.Access.{get_repeat_snapshot, get_last_notified}
use malert.Engine.Key.{keyed, no_key, build_alert_key}
use malert.Engine.Process.{process_event}
use malert.Engine.Compact.{compact_states}
use malert.Engine.State.{States}
use malert.Engine.Tick.{tick_rule}
use malert.Engine.Matcher.{match_event}

abbrev pub is_nil : List RuleNotifyRoute → Bool
is_nil [] = true
is_nil (r ∷ rs) = false

-- `zero_time` where there is no entry.
abbrev pub time_or_zero : Option Time → Time
time_or_zero none = zero_time
time_or_zero (some t) = t

-- `repeatEnabled`.
unfoldable pub repeat_enabled : Settings → RuleConfig → Bool
repeat_enabled settings rule = elim rule.notify.repeat [ some b ↦ b | none ↦ settings.repeat ]

-- `repeatEvery`.
unfoldable pub repeat_every : Settings → RuleConfig → Duration
repeat_every settings rule =
    let own = rule.notify.repeat_every_sec in
    let given = if ltb_i64 0 own then own else settings.repeat_every_sec in
    seconds (if leb_i64 given 0 then 300 else given)

-- Whether the last notification under a key is too recent for a repeat.
unfoldable pub is_recent : States → Text → Text → Time → Duration → Bool
unfolding get_last_notified
is_recent states id key now every =
    let last = time_or_zero (get_last_notified states id key) in
    not (is_zero last) && ltb_i64 (sub_time now last) every

-- `runtimeStateIdleTTL`.
unfoldable pub runtime_state_idle_ttl : Settings → Duration
runtime_state_idle_ttl settings =
    if leb_i64 settings.runtime_state_idle_sec 0 then 0 else seconds settings.runtime_state_idle_sec

module _ {w : World} where
  -- The body of the loop of `processEvent`, with the map of refreshes.
  unfoldable pub process_rule : Event → Time → RuleConfig → Pending → Run w Pending
  unfolding should_drop_out_of_order match_event build_alert_key process_event apply_decision
  process_rule event now rule waiting app =
      if should_drop_out_of_order rule event now
      then pure waiting app
      else elim (match_event w.unicode w.compile_regexp w.compile_wildcard rule event) [
        | none ↦ fail panicked app
        | some hit ↦
            if not hit then pure waiting app else elim (build_alert_key w.digest rule event) [
              | no_key e ↦ pure waiting app
              | keyed id ↦
                  let (states, decision) =
                    process_event w.format_float app.engine rule event id now in
                  let next : App w = record app { engine = states } in
                  if not decision.matched
                  then pure waiting next
                  else apply_decision rule id decision now waiting next
            ]
      ]

  unfoldable pub process_rules : Event → Time → List RuleConfig → Pending → Run w Pending
  unfolding process_rule
  process_rules event now [] waiting = pure waiting
  process_rules event now (rule ∷ rules) waiting =
      and_then (process_rule event now rule waiting) (λ ticks. process_rules event now rules ticks)

  -- `processEvent`.
  unfoldable pub process_incoming : Event → Pending → Run w Pending
  unfolding process_rules
  process_incoming event waiting =
      and_then read_now (λ now app. process_rules event now app.settings.sorted waiting app)

  -- `Push`, and `ProcessEvent`.
  unfoldable pub push : Event → Run w (Unit {0})
  unfolding process_incoming
  push event = and_then (process_incoming event none) (λ ticks. pure tt)

  -- The loop of `PushBatch`.
  unfoldable pub push_events : List Event → Pending → Run w Pending
  unfolding process_incoming
  push_events [] waiting = pure waiting
  push_events (event ∷ events) waiting =
      and_then (process_incoming event waiting) (λ ticks. push_events events ticks)

  -- `PushBatch`.
  unfoldable pub push_batch : List Event → Run w (Unit {0})
  unfolding push_events flush_tick_refresh
  push_batch events =
      and_then (push_events events (some []))
        (λ waiting. elim waiting [ none ↦ pure tt | some ticks ↦ flush_tick_refresh ticks ])

  -- The loop over the decisions of a rule in `Tick`.
  unfoldable pub apply_decisions : RuleConfig → Time → List Decision → Run w (Unit {0})
  unfolding apply_decision
  apply_decisions rule now [] = pure tt
  apply_decisions rule now (d ∷ ds) =
      and_then (apply_decision rule d.alert_id d now none) (λ ticks. apply_decisions rule now ds)

  -- A repeat under a key, unless one was sent lately; an error of the sending is only logged.
  unfoldable pub repeat_on :
      RuleConfig → Notification → Time → Text → List RuleNotifyRoute → Run w (Unit {0})
  unfolding is_recent repeat_every dispatch_notification
  repeat_on rule n now key routes app =
      if is_recent app.engine n.alert_id key now (repeat_every app.settings rule)
      then pure tt app
      else ignoring (dispatch_notification rule n routes) app

  -- The loop over the routes where repeats are tracked by channel.
  unfoldable pub repeat_routes :
      RuleConfig → Notification → Time → List RuleNotifyRoute → Run w (Unit {0})
  unfolding repeat_on normalized_notify_route
  repeat_routes rule n now [] = pure tt
  repeat_routes rule n now (route ∷ routes) =
      let rest : Run w (Unit {0}) = repeat_routes rule n now routes in
      elim (normalized_notify_route w.unicode route true) [
        | none ↦ rest
        | some r ↦ and_then (repeat_on rule n now r.key (route ∷ [])) (λ x. rest)
      ]

  -- The body of the loop over the firing IDs in `Tick`.
  unfoldable pub repeat_firing : RuleConfig → Time → Text → Run w (Unit {0})
  unfolding repeat_on repeat_routes repeat_enabled get_repeat_snapshot build_notification
  repeat_firing rule now id app = elim (get_repeat_snapshot app.engine id) [
    | none ↦ pure tt app
    | some s ↦
        let n : Notification =
          build_notification id rule.name s.var s.tags s.metric_value firing (codes "firing repeat")
            now s.raised_at in
        if not (repeat_enabled app.settings rule) || is_nil rule.notify.route
        then pure tt app
        else if app.settings.repeat_per_channel
        then repeat_routes rule n now rule.notify.route app
        else repeat_on rule n now repeat_key_global rule.notify.route app
  ]

  unfoldable pub repeat_all : RuleConfig → Time → List Text → Run w (Unit {0})
  unfolding repeat_firing
  repeat_all rule now [] = pure tt
  repeat_all rule now (id ∷ ids) =
      and_then (repeat_firing rule now id) (λ x. repeat_all rule now ids)

  -- The loop of `Tick` over the rules.
  unfoldable pub tick_rules : Time → List RuleConfig → Run w (Unit {0})
  unfolding apply_decisions repeat_all tick_rule
  tick_rules now [] app = pure tt app
  tick_rules now (rule ∷ rules) app =
      let result = tick_rule rule now app.engine in
      let next : App w = record app { engine = result.states } in
      and_then (apply_decisions rule now result.decisions)
        (λ x. and_then (repeat_all rule now result.firing_ids) (λ y. tick_rules now rules)) next

  -- The end of `Tick`.
  unfoldable pub compact_engine : Time → Run w (Unit {0})
  unfolding runtime_state_idle_ttl compact_states
  compact_engine now app =
      let ttl = runtime_state_idle_ttl app.settings in
      let max_states = app.settings.runtime_state_max in
      if ltb_i64 0 ttl || ltb_i64 0 max_states
      then change_engine (λ s. (compact_states now ttl max_states s).states) app
      else pure tt app

  -- `Tick`.
  unfoldable pub tick : Run w (Unit {0})
  unfolding tick_rules compact_engine
  tick =
      and_then read_now
        (λ now app. and_then (tick_rules now app.settings.sorted) (λ x. compact_engine now) app)
