-- ===== src/Engine/Counting.antt =====
-- A counting rule over a stream of events: the total, and the moment at which the alert fires.
use malert.Base.{
  ◌∷◌, [], false, List, ℕ, ◌+◌, Time, ◌≡◌, leb_i64, if◌then◌else◌, add_i64, ◌<◌, leb, int64_half,
  arith, ◌≤◌, add_i64-exact, leb_i64-nonneg,
}
use malert.Domain.{unset, firing, AlertState}
use malert.Config.Rule.{RuleConfig}
use malert.Engine.Process.{process_total}
use malert.Engine.State.{RuntimeState}
use malert.Domain.Event.{Event}
use malert.Engine.Active.{apply_active_condition}

-- The events of one alert with the times at which they are processed, oldest first.
abbrev pub Stream : Type 0
Stream = List (Event × Time)

pub feed_total : RuleConfig → RuntimeState → Stream → RuntimeState
unfolding process_total
feed_total rule s [] = s
feed_total rule s ((event, now) ∷ events) =
    feed_total rule (process_total s rule event now).0 events

-- The sum of the counts, without wrapping.
abbrev pub total : Stream → ℕ
total [] = 0
total ((event, now) ∷ events) = event.agg_cnt + total events

-- What a rule without a pending phase makes of a total.
abbrev pub verdict : ℕ → ℕ → AlertState
verdict n count = if leb n count then firing else unset

step_total :
    (rule : RuleConfig) (s : RuntimeState) (event : Event) (now : Time)
    → rule.pending.enabled ≡ false
    → rule.raise.n < int64_half
    → s.count_total + event.agg_cnt < int64_half
    → s.current_state ≡ verdict rule.raise.n s.count_total
    → ((process_total s rule event now).0.count_total ≡ s.count_total + event.agg_cnt)
      × ((process_total s rule event now).0.current_state
          ≡ verdict rule.raise.n (s.count_total + event.agg_cnt))
unfolding process_total apply_active_condition
step_total rule s event now p n small e = ground (
  arith,
  add_i64-exact s.count_total event.agg_cnt small,
  leb_i64-nonneg rule.raise.n (s.count_total + event.agg_cnt) n small,
)

-- A count_total rule without a pending phase, on a stream whose counts add up to less than 2 ^ 63:
-- the stored total is the sum, and the alert fires exactly when the sum has reached raise.n,
-- however the counts are spread over events and times.
pub feed_total-verdict :
    (rule : RuleConfig) (s : RuntimeState) (events : Stream)
    → rule.pending.enabled ≡ false
    → rule.raise.n < int64_half
    → s.count_total + total events < int64_half
    → s.current_state ≡ verdict rule.raise.n s.count_total
    → ((feed_total rule s events).count_total ≡ s.count_total + total events)
      × ((feed_total rule s events).current_state
          ≡ verdict rule.raise.n (s.count_total + total events))
unfolding feed_total
feed_total-verdict rule s [] p n small e = ground arith
feed_total-verdict rule s ((event, now) ∷ events) p n small e =
    let t = (process_total s rule event now).0 in
    let (counted, judged) = step_total rule s event now p n (omega arith) e in
    let sum : t.count_total + total events ≡ s.count_total + (event.agg_cnt + total events) =
      omega arith in
    let rest = feed_total-verdict rule t events p n (omega arith) (rw counted judged) in
    rw (← sum) rest

-- The total is an int64: an event that carries it past 2 ^ 63 turns it negative, and the condition
-- fails although the total is at least raise.n. An idle alert then stays idle.
pub process_total_overflow :
    (rule : RuleConfig) (s : RuntimeState) (event : Event) (now : Time)
    → s.current_state ≡ unset
    → rule.raise.n < int64_half
    → s.count_total < int64_half
    → event.agg_cnt < int64_half
    → int64_half ≤ s.count_total + event.agg_cnt
    → ((process_total s rule event now).0.current_state ≡ unset)
      × ((process_total s rule event now).1.should_notify ≡ false)
unfolding process_total apply_active_condition leb_i64 add_i64
process_total_overflow rule s event now idle n a b big = ground arith
