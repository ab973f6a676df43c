-- ===== src/Engine/Timing.antt =====
-- When an alert moves: the pending delay, the silence timeout, and the hysteresis of a heartbeat.
use malert.Domain.{unset}
use malert.Base.{
  false, true, [], ◌∷◌, Time, ℕ, ◌≤◌, ◌-◌, ◌<◌, int64_half, ◌≡◌, max_seconds, ◌+◌, ◌*◌, ◌⊎◌, arith,
  elapsed_of_seconds, add_i64-exact,
}
use malert.Config.Rule.{RuleConfig}
use malert.Engine.Tick.{tick_count, silence_timeout}
use malert.Engine.Active.{resolves}
use malert.Engine.State.{reset_resolved_state, RuntimeState, is_active}

-- One second.
abbrev pub second : ℕ
second = 1000000000

-- A time that the clock has reached, less than 292 years ago.
pub record Past (since now : Time) : Type 0 where
  pub reached : since ≤ now
  pub near : now - since < int64_half

-- Where silence_sec and hysteresis_sec are not negative, their sum is at most 9223372036, and the
-- clock has reached the last event of an active alert of a counting rule, less than 2^63 ns ago, a
-- tick ends the alert once silence_sec + hysteresis_sec have passed since that event, and not
-- before: until then it changes nothing and decides nothing.
pub tick_count-silence :
    (s : RuntimeState) (rule : RuleConfig) (now : Time)
    → is_active s.current_state ≡ true
    → rule.resolve.silence_sec + rule.resolve.hysteresis_sec ≤ max_seconds
    → Past s.last_seen now
    → let p = tick_count rule now s in
      let limit = s.last_seen + (rule.resolve.silence_sec + rule.resolve.hysteresis_sec) * second in
      ((limit ≤ now)
        × (p.state.current_state ≡ unset)
        × (p.state.count_total ≡ 0)
        × (p.state.count_window ≡ [])
        × (p.decisions ≡ resolves s.alert_id false silence_timeout ∷ []))
      ⊎ ((now < limit) × (p.state ≡ s) × (p.decisions ≡ []))
unfolding tick_count reset_resolved_state
tick_count-silence s rule now a h past =
    let exact = add_i64-exact rule.resolve.silence_sec rule.resolve.hysteresis_sec (omega arith) in
    ground (
      arith,
      exact,
      elapsed_of_seconds now s.last_seen (rule.resolve.silence_sec + rule.resolve.hysteresis_sec) h
          past.reached past.near,
    )
