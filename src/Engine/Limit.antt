-- ===== src/Engine/Limit.antt =====
-- Compaction as a whole: active alerts stay, the counter is exact, and the limit is met.
use malert.Base.{
  inr, suc, false, true, [], zero, some, none, inl, ◌∷◌, List, Text, lookup, ℕ, ◌≡◌, Distinct,
  Bool-cases, All, has_key, length, delete, ◌+◌, arith, text_eq, ◌≤◌, lookup-delete, ◌⊎◌,
  length-delete, lookup-delete_self, Time, Duration, Distinct-delete, Int64, text_eq_iff, subst,
  before, ◌-◌, sym, leb, int64_half, leb_i64, leb_i64-nonneg, ◌<◌, refl, ◌∙◌,
}
use malert.Engine.Compact.{
  candidates, evict, Candidate, Compaction, compact_states, is_expired, sort_candidates, expire,
  enforce,
}
use malert.Engine.State.{RuntimeState, States, is_idle}
use malert.Engine.Reachable.{IsEngine, expire-IsEngine}
use malert.Engine.Eviction.{
  drop-active, All-sort_candidates, candidates-others, evict-others, All-sort_candidates_back,
  evict-length, drop-length,
}

-- An ID that is not there stays away.
evict-none :
    (id : Text) (xs : List Candidate) (need : ℕ) (c : Compaction)
    → lookup id c.states ≡ none
    → lookup id (evict xs need c).states ≡ none
unfolding evict
evict-none id [] need c h = h
evict-none id (x ∷ xs) zero c h = h
evict-none id (x ∷ xs) (suc need) c h = elim (Bool-cases (has_key x.alert_id c.states)) [
  | inl e ↦ rw e (evict-none id xs need _ (ground (arith, h, lookup-delete x.alert_id id c.states)))
  | inr e ↦ rw e (evict-none id xs (suc need) c h)
]

evict-some :
    (id : Text) (s : RuntimeState) (xs : List Candidate) (need : ℕ) (c : Compaction)
    → lookup id (evict xs need c).states ≡ some s
    → lookup id c.states ≡ some s
unfolding evict
evict-some id s [] need c h = h
evict-some id s (x ∷ xs) zero c h = h
evict-some id s (x ∷ xs) (suc need) c h = elim (Bool-cases (has_key x.alert_id c.states)) [
  | inl e ↦
      let gone : Compaction = record {
        states = delete x.alert_id c.states;
        removed = suc c.removed;
      } in
      let kept = evict-some id s xs need gone (rw e at h) in
      ground (arith, kept, lookup-delete x.alert_id id c.states)
  | inr e ↦ evict-some id s xs (suc need) c (rw e at h)
]

evict-hit :
    (x : Candidate) (xs : List Candidate) (need : ℕ) (c : Compaction)
    → has_key x.alert_id c.states ≡ true
    → evict (x ∷ xs) (suc need) c
      ≡ evict xs need (record { states = delete x.alert_id c.states; removed = suc c.removed })
unfolding evict
evict-hit x xs need c e = rw e

evict-miss :
    (x : Candidate) (xs : List Candidate) (need : ℕ) (c : Compaction)
    → has_key x.alert_id c.states ≡ false
    → evict (x ∷ xs) (suc need) c ≡ evict xs (suc need) c
unfolding evict
evict-miss x xs need c e = rw e

-- The loop has taken off `need` of `before` entries, or all candidates are gone.
abbrev Enough : List Candidate → ℕ → ℕ → States → Type 0
Enough xs need before r = (length r + need ≤ before) ⊎ All (λ x. has_key x.alert_id r ≡ false) xs

-- The last loop takes off what is needed, or runs out of candidates.
evict-Enough :
    (xs : List Candidate) (need : ℕ) (c : Compaction)
    → Distinct c.states
    → Enough xs need (length c.states) (evict xs need c).states
evict-Enough [] need c d = inr tt
evict-Enough (x ∷ xs) zero c d = inl (unfold evict in omega arith)
evict-Enough (x ∷ xs) (suc need) c d = elim (Bool-cases (has_key x.alert_id c.states)) [
  | inl e ↦
      let gone : Compaction = record {
        states = delete x.alert_id c.states;
        removed = suc c.removed;
      } in
      let one = length-delete x.alert_id c.states d e in
      let away = evict-none x.alert_id xs need gone (lookup-delete_self x.alert_id c.states) in
      subst (λ r. Enough (x ∷ xs) (suc need) (length c.states) r.states)
        (sym (evict-hit x xs need c e))
        (elim (evict-Enough xs need gone (Distinct-delete x.alert_id c.states d)) [
          | inl h ↦ inl (omega (arith, one, h))
          | inr h ↦ inr (rw away, h)
        ])
  | inr e ↦
      let away = evict-none x.alert_id xs (suc need) c (ground (arith, e)) in
      subst (λ r. Enough (x ∷ xs) (suc need) (length c.states) r.states)
        (sym (evict-miss x xs need c e))
        (elim (evict-Enough xs (suc need) c d) [ inl h ↦ inl h | inr h ↦ inr (rw away, h) ])
]

-- An idle entry is a candidate.
candidates-idle :
    (id : Text) (s : RuntimeState) (states : States) (P : Text → Type 0)
    → lookup id states ≡ some s
    → is_idle s.current_state ≡ true
    → All (λ c. P c.alert_id) (candidates states)
    → P id
unfolding candidates lookup
candidates-idle id s [] P e i h = cc
candidates-idle id s ((j, t) ∷ states) P e i h = elim (Bool-cases (text_eq j id)) [
  | inl q ↦
      let same : some t ≡ some s = rw q at e in
      let idle : is_idle t.current_state ≡ true = ground (arith, same) in
      subst P ((text_eq_iff j id).0 q) (rw idle at h).0
  | inr q ↦ elim (Bool-cases (is_idle t.current_state)) [
    | inl k ↦ candidates-idle id s states P (rw q at e) i (rw k at h).1
    | inr k ↦ candidates-idle id s states P (rw q at e) i (rw k at h)
  ]
]

expire-active :
    (now : Time) (ttl : Duration) (states : States) (id : Text) (s : RuntimeState)
    → Distinct states
    → lookup id states ≡ some s
    → is_idle s.current_state ≡ false
    → lookup id (expire now ttl states).states ≡ some s
unfolding expire is_expired
expire-active now ttl states id s d e a =
    ground (arith, drop-active now ttl id s states e (ground arith) d)

-- Compaction evicts no active alert: its state is still there, unchanged.
pub compact-active :
    (now : Time) (ttl : Duration) (max_states : Int64) (states : States) (id : Text)
    (s : RuntimeState)
    → IsEngine states
    → lookup id states ≡ some s
    → is_idle s.current_state ≡ false
    → lookup id (compact_states now ttl max_states states).states ≡ some s
unfolding compact_states enforce
compact-active now ttl max_states states id s v e a =
    let c = expire now ttl states in
    let held : lookup id c.states ≡ some s = expire-active now ttl states id s v.distinct e a in
    let others =
      candidates-others id s c.states (expire-IsEngine now ttl states v).distinct held a in
    let kept =
      evict-others id (sort_candidates (candidates c.states)) (length c.states - max_states) c
        (All-sort_candidates _ (candidates c.states) others) in
    ground (arith, held, kept)

-- No idle entry is left.
abbrev pub NoIdle : States → Type 0
NoIdle states =
    (id : Text) (s : RuntimeState) → lookup id states ≡ some s → is_idle s.current_state ≡ false

gone-NoIdle :
    (xs : List Candidate) (need : ℕ) (c : Compaction)
    → All (λ x. has_key x.alert_id (evict xs need c).states ≡ false) (candidates c.states)
    → NoIdle (evict xs need c).states
gone-NoIdle xs need c h id s e = elim (Bool-cases (is_idle s.current_state)) [
  | inl i ↦
      let held = evict-some id s xs need c e in
      let away =
        candidates-idle id s c.states (λ j. has_key j (evict xs need c).states ≡ false) held i h in
      absurd (ground (arith, away, e))
  | inr a ↦ a
]

enforce-limit :
    (max_states : ℕ) (c : Compaction)
    → Distinct c.states
    → 0 < max_states
    → max_states < int64_half
    → let r = enforce max_states c in
      (length r.states + r.removed ≡ length c.states + c.removed)
      × ((length r.states ≤ max_states) ⊎ NoIdle r.states)
unfolding enforce
enforce-limit max_states c d p q =
    let need = length c.states - max_states in
    let xs = sort_candidates (candidates c.states) in
    let counted = evict-length xs need c d in
    let some_limit : leb_i64 max_states 0 ≡ false =
      leb_i64-nonneg max_states 0 q (omega arith) ∙ ground arith in
    rw some_limit (elim (Bool-cases (leb (length c.states) max_states)) [
      | inl e ↦ rw e (refl, inl (ground arith))
      | inr e ↦ rw e (
        counted,
        elim (evict-Enough xs need c d) [
          | inl h ↦ inl (ground (arith, h))
          | inr h ↦ inr (gone-NoIdle xs need c (All-sort_candidates_back _ (candidates c.states) h))
        ],
      )
    ])

expire-length :
    (now : Time) (ttl : Duration) (states : States)
    → length (expire now ttl states).states + (expire now ttl states).removed ≡ length states
unfolding expire
expire-length now ttl states = ground (arith, drop-length now ttl states)

-- With a positive limit: the number that compaction returns is the number of states it evicted, and
-- afterwards there are at most max_states states, or none of those left is idle.
pub compact-limit :
    (now : Time) (ttl : Duration) (max_states : ℕ) (states : States)
    → IsEngine states
    → 0 < max_states
    → max_states < int64_half
    → let r = compact_states now ttl max_states states in
      (length r.states + r.removed ≡ length states)
      × ((length r.states ≤ max_states) ⊎ NoIdle r.states)
unfolding compact_states
compact-limit now ttl max_states states v p q =
    let c = expire now ttl states in
    let (counted, bounded) =
      enforce-limit max_states c (expire-IsEngine now ttl states v).distinct p q in
    (counted ∙ expire-length now ttl states, bounded)
