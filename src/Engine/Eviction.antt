-- ===== src/Engine/Eviction.antt =====
-- Compaction: what it may evict, how many states are left, and in which order they go.
use malert.Base.{
  refl, ◌∷◌, [], some, false, suc, lookup, List, Time, length, Duration, Text, ◌≡◌, arith, Distinct,
  text_eq_iff, zero, inr, inl, All, ◌+◌, Bool-cases, ℕ, text_eq, before, has_key, lookup-delete,
  length-delete, delete, Distinct-delete, Fresh, subst,
}
use malert.Engine.Compact.{
  drop_expired, insert_candidate, Candidate, is_expired, sort_candidates, count_expired, candidates,
  evict, Compaction,
}
use malert.Engine.State.{RuntimeState, States, is_idle}

-- No entry but an idle one goes: an active alert keeps its state.
pub drop-active :
    (now : Time) (ttl : Duration) (id : Text) (s : RuntimeState) (states : States)
    → lookup id states ≡ some s
    → is_expired now ttl s ≡ false
    → Distinct states
    → lookup id (drop_expired now ttl states) ≡ some s
unfolding drop_expired lookup
drop-active now ttl id s [] e a d = e
drop-active now ttl id s ((j, t) ∷ states) e a d =
    ground (arith, drop-active now ttl id s states, text_eq_iff j id)

-- A property of every candidate outlives the sort.
All-insert_candidate :
    (P : Candidate → Type 0) (c : Candidate) (cs : List Candidate)
    → P c
    → All P cs
    → All P (insert_candidate c cs)
unfolding insert_candidate
All-insert_candidate P c [] h hs = (h, tt)
All-insert_candidate P c (d ∷ ds) h hs = elim (Bool-cases (before d.last_seen c.last_seen)) [
  | inl e ↦ rw e (hs.0, All-insert_candidate P c ds h hs.1)
  | inr e ↦ rw e (h, hs)
]

pub All-sort_candidates :
    (P : Candidate → Type 0) (cs : List Candidate) → All P cs → All P (sort_candidates cs)
unfolding sort_candidates
All-sort_candidates P [] h = tt
All-sort_candidates P (c ∷ cs) h =
    All-insert_candidate P c (sort_candidates cs) h.0 (All-sort_candidates P cs h.1)

All-insert_candidate_back :
    (P : Candidate → Type 0) (c : Candidate) (cs : List Candidate)
    → All P (insert_candidate c cs)
    → P c × All P cs
unfolding insert_candidate
All-insert_candidate_back P c [] h = (h.0, tt)
All-insert_candidate_back P c (d ∷ ds) h = elim (Bool-cases (before d.last_seen c.last_seen)) [
  | inl e ↦ let k = rw e at h in let r = All-insert_candidate_back P c ds k.1 in (r.0, (k.0, r.1))
  | inr e ↦ let k = rw e at h in (k.0, k.1)
]

-- And nothing is lost by the sort.
pub All-sort_candidates_back :
    (P : Candidate → Type 0) (cs : List Candidate) → All P (sort_candidates cs) → All P cs
unfolding sort_candidates
All-sort_candidates_back P [] h = tt
All-sort_candidates_back P (c ∷ cs) h =
    let r = All-insert_candidate_back P c (sort_candidates cs) h in
    (r.0, All-sort_candidates_back P cs r.1)

candidates-Fresh :
    (id : Text) (states : States)
    → Fresh id states
    → All (λ c. text_eq c.alert_id id ≡ false) (candidates states)
unfolding candidates
candidates-Fresh id [] f = tt
candidates-Fresh id ((j, t) ∷ states) f = ground (arith, candidates-Fresh id states f.1)

-- No candidate has the ID of an entry that is not idle.
pub candidates-others :
    (id : Text) (s : RuntimeState) (states : States)
    → Distinct states
    → lookup id states ≡ some s
    → is_idle s.current_state ≡ false
    → All (λ c. text_eq c.alert_id id ≡ false) (candidates states)
unfolding candidates lookup
candidates-others id s [] d e a = tt
candidates-others id s ((j, t) ∷ states) d e a = elim (Bool-cases (text_eq j id)) [
  | inl q ↦
      let fresh = subst (λ i. Fresh i states) ((text_eq_iff j id).0 q) d.0 in
      ground (arith, candidates-Fresh id states fresh)
  | inr q ↦ ground (arith, candidates-others id s states d.1)
]

pub evict-others :
    (id : Text) (xs : List Candidate) (need : ℕ) (c : Compaction)
    → All (λ x. text_eq x.alert_id id ≡ false) xs
    → lookup id (evict xs need c).states ≡ lookup id c.states
unfolding evict
evict-others id [] need c h = refl
evict-others id (x ∷ xs) zero c h = refl
evict-others id (x ∷ xs) (suc need) c h = elim (Bool-cases (has_key x.alert_id c.states)) [
  | inl e ↦ rw (e, evict-others id xs need _ h.1, lookup-delete x.alert_id id c.states, h.0)
  | inr e ↦ rw (e, evict-others id xs (suc need) c h.1)
]

pub evict-length :
    (xs : List Candidate) (need : ℕ) (c : Compaction)
    → Distinct c.states
    → length (evict xs need c).states + (evict xs need c).removed ≡ length c.states + c.removed
unfolding evict
evict-length [] need c d = refl
evict-length (x ∷ xs) zero c d = refl
evict-length (x ∷ xs) (suc need) c d = elim (Bool-cases (has_key x.alert_id c.states)) [
  | inl e ↦
      let one = length-delete x.alert_id c.states d e in
      rw e (
        omega (
          arith,
          one,
          evict-length xs need
              (record { states = delete x.alert_id c.states; removed = suc c.removed })
              (Distinct-delete x.alert_id c.states d),
        ))
  | inr e ↦ rw e (evict-length xs (suc need) c d)
]

pub drop-length :
    (now : Time) (ttl : Duration) (states : States)
    → length (drop_expired now ttl states) + count_expired now ttl states ≡ length states
unfolding drop_expired count_expired
drop-length now ttl [] = refl
drop-length now ttl ((id, s) ∷ states) = ground (arith, drop-length now ttl states)
