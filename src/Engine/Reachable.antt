-- ===== src/Engine/Reachable.antt =====
-- The invariant of the whole engine over any history of calls.
use malert.Engine.State.{States, RuntimeState, ensure_state, new_engine}
use malert.Domain.Event.{Float64, Event}
use malert.Base.{
  Text, Distinct, Entries, Time, ◌≡◌, Fresh, Option-cases, lookup, Distinct-insert, Entries-insert,
  inl, arith, ◌∙◌, inr, Entries-lookup, ◌∷◌, [], Bool-cases, text_eq, zero, suc, delete, Duration,
  List, Distinct-delete, Entries-delete, Int64, ℕ, length, has_key, ◌-◌,
}
use malert.Engine.Tick.{tick_rule}
use malert.Config.Rule.{RuleConfig}
use malert.Engine.Process.{seen_state, process_event}
use malert.Engine.Identity.{process_state-SameIdentity, tick_state-SameIdentity}
use malert.Engine.Invariant.{IsValid, fresh-IsValid, process_state-IsValid, tick_state-IsValid}
use malert.Engine.Run.{
  ref_call, notified_call, tick_call, remove_call, event_call, message_call, compact_call, step,
  run, Call,
}
use malert.Engine.Compact.{
  evict, drop_expired, compact_states, Candidate, is_expired, sort_candidates, candidates,
  Compaction, expire, enforce,
}
use malert.Engine.Access.{
  update_state, remove_alert_state, set_last_notified, set_channel_message_id,
  set_channel_external_ref,
}

-- An entry stands under its own ID, and its state is valid.
abbrev pub IsEntry : Text → RuntimeState → Type 0
IsEntry id s = (s.alert_id ≡ id) × IsValid s

pub record IsEngine (states : States) : Type 0 where
  pub distinct : Distinct states
  pub entries : Entries IsEntry states

module _ (format_float : Float64 → Text) where
  pub seen_state-IsEntry :
      (states : States) (rule : RuleConfig) (event : Event) (id : Text) (now : Time)
      → IsEngine states
      → IsEntry id (seen_state format_float states rule event id now)
  unfolding seen_state ensure_state
  seen_state-IsEntry states rule event id now v = elim (Option-cases (lookup id states)) [
    | inl e ↦ rw (e, ensure_state) (ground (arith, fresh-IsValid format_float rule event id))
    | inr (s, e) ↦
        rw (e, ensure_state) (ground (arith, Entries-lookup IsEntry id s states v.entries e))
  ]

  process_event-IsEngine :
      (states : States) (rule : RuleConfig) (event : Event) (id : Text) (now : Time)
      → IsEngine states
      → IsEngine (process_event format_float states rule event id now).0
  unfolding process_event
  process_event-IsEngine states rule event id now v =
      let seen = seen_state format_float states rule event id now in
      let (named, valid) = seen_state-IsEntry states rule event id now v in
      let kept = process_state-SameIdentity rule.alert_type seen rule event id now in
      record {
        distinct = Distinct-insert id _ states v.distinct;
        entries =
            Entries-insert IsEntry id _ states
              (
                kept.alert_id ∙ named,
                process_state-IsValid rule.alert_type seen rule event id now valid,
              )
              v.entries;
      }

Fresh-tick :
    (rule : RuleConfig) (now : Time) (id : Text) (states : States)
    → Fresh id states
    → Fresh id (tick_rule rule now states).states
unfolding tick_rule
Fresh-tick rule now id [] h = tt
Fresh-tick rule now id ((j, s) ∷ states) h = elim (Bool-cases (text_eq s.rule_name rule.name)) [
  | inl e ↦ rw e (h.0, Fresh-tick rule now id states h.1)
  | inr e ↦ rw e (h.0, Fresh-tick rule now id states h.1)
]

tick-IsEngine :
    (rule : RuleConfig) (now : Time) (states : States)
    → IsEngine states
    → IsEngine (tick_rule rule now states).states
unfolding tick_rule
tick-IsEngine rule now [] v = v
tick-IsEngine rule now ((id, s) ∷ states) v =
    let rest =
      tick-IsEngine rule now states (record { distinct = v.distinct.1; entries = v.entries.1 }) in
    let fresh = Fresh-tick rule now id states v.distinct.0 in
    let (named, valid) = v.entries.0 in
    elim (Bool-cases (text_eq s.rule_name rule.name)) [
      | inl e ↦ rw e (record {
        distinct = (fresh, rest.distinct);
        entries = (
          (
            (tick_state-SameIdentity rule.alert_type s rule now).alert_id ∙ named,
            tick_state-IsValid rule.alert_type s rule now valid,
          ),
          rest.entries,
        );
      })
      | inr e ↦
          rw e
            (record { distinct = (fresh, rest.distinct); entries = ((named, valid), rest.entries) })
    ]

delete-IsEngine : (id : Text) (states : States) → IsEngine states → IsEngine (delete id states)
delete-IsEngine id states v = record {
  distinct = Distinct-delete id states v.distinct;
  entries = Entries-delete IsEntry id states v.entries;
}

Fresh-drop :
    (now : Time) (ttl : Duration) (id : Text) (states : States)
    → Fresh id states
    → Fresh id (drop_expired now ttl states)
unfolding drop_expired
Fresh-drop now ttl id [] h = h
Fresh-drop now ttl id ((j, s) ∷ states) h = ground (arith, Fresh-drop now ttl id states h.1)

drop-IsEngine :
    (now : Time) (ttl : Duration) (states : States)
    → IsEngine states
    → IsEngine (drop_expired now ttl states)
unfolding drop_expired
drop-IsEngine now ttl [] v = v
drop-IsEngine now ttl ((id, s) ∷ states) v =
    let rest =
      drop-IsEngine now ttl states (record { distinct = v.distinct.1; entries = v.entries.1 }) in
    elim (Bool-cases (is_expired now ttl s)) [
      | inl e ↦ rw e rest
      | inr e ↦ rw e (record {
        distinct = (Fresh-drop now ttl id states v.distinct.0, rest.distinct);
        entries = (v.entries.0, rest.entries);
      })
    ]

evict-IsEngine :
    (xs : List Candidate) (need : ℕ) (c : Compaction)
    → IsEngine c.states
    → IsEngine (evict xs need c).states
unfolding evict
evict-IsEngine [] need c v = v
evict-IsEngine (x ∷ xs) zero c v = v
evict-IsEngine (x ∷ xs) (suc need) c v = elim (Bool-cases (has_key x.alert_id c.states)) [
  | inl e ↦ rw e (evict-IsEngine xs need _ (delete-IsEngine x.alert_id c.states v))
  | inr e ↦ rw e (evict-IsEngine xs (suc need) c v)
]

pub expire-IsEngine :
    (now : Time) (ttl : Duration) (states : States)
    → IsEngine states
    → IsEngine (expire now ttl states).states
unfolding expire
expire-IsEngine now ttl states v = ground (arith, drop-IsEngine now ttl states v)

compact-IsEngine :
    (now : Time) (ttl : Duration) (max_states : Int64) (states : States)
    → IsEngine states
    → IsEngine (compact_states now ttl max_states states).states
unfolding compact_states enforce
compact-IsEngine now ttl max_states states v =
    let c = expire now ttl states in
    let kept = expire-IsEngine now ttl states v in
    ground (
      arith,
      kept,
      evict-IsEngine (sort_candidates (candidates c.states)) (length c.states - max_states) c kept,
    )

-- A change of a state that keeps its ID and its validity keeps the engine's invariant.
update-IsEngine :
    (id : Text) (f : RuntimeState → RuntimeState) (states : States)
    → ((s : RuntimeState) → IsEntry id s → IsEntry id (f s))
    → IsEngine states
    → IsEngine (update_state id f states).0
unfolding update_state
update-IsEngine id f states h v = elim (Option-cases (lookup id states)) [
  | inl e ↦ rw (e, update_state) v
  | inr (s, e) ↦
      rw (e, update_state)
        (record {
          distinct = Distinct-insert id (f s) states v.distinct;
          entries =
              Entries-insert IsEntry id (f s) states
                (h s (Entries-lookup IsEntry id s states v.entries e)) v.entries;
        })
]

module _ (format_float : Float64 → Text) where
  step-IsEngine :
      (c : Call) (states : States) → IsEngine states → IsEngine (step format_float states c)
  unfolding step remove_alert_state set_last_notified set_channel_message_id
      set_channel_external_ref
  step-IsEngine (event_call rule event id now) states v =
      process_event-IsEngine format_float states rule event id now v
  step-IsEngine (tick_call rule now) states v = tick-IsEngine rule now states v
  step-IsEngine (remove_call id) states v = delete-IsEngine id states v
  step-IsEngine (notified_call id channel now) states v =
      update-IsEngine id _ states (λ s h. ground arith) v
  step-IsEngine (message_call id channel message) states v =
      update-IsEngine id _ states (λ s h. ground arith) v
  step-IsEngine (ref_call id channel ref) states v =
      update-IsEngine id _ states (λ s h. ground arith) v
  step-IsEngine (compact_call now ttl max_states) states v =
      compact-IsEngine now ttl max_states states v

  run_from-IsEngine :
      (cs : List Call) (states : States) → IsEngine states → IsEngine (run format_float states cs)
  unfolding run
  run_from-IsEngine [] states v = v
  run_from-IsEngine (c ∷ cs) states v =
      run_from-IsEngine cs (step format_float states c) (step-IsEngine c states v)

  -- After any history of calls on a new engine, whatever the rules, events and times: no alert ID
  -- stands twice; each state stands under its own ID and is valid: it is not resolved, it has a
  -- pending time exactly when it is pending, a hysteresis time only while it is active, no raise
  -- time while it is idle, and the running sum of its window is the sum of the counts in it.
  pub run-IsEngine : (cs : List Call) → IsEngine (run format_float new_engine cs)
  unfolding new_engine
  run-IsEngine cs = run_from-IsEngine cs [] (record { distinct = tt; entries = tt })
