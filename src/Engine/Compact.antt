-- ===== src/Engine/Compact.antt =====
-- internal/engine/engine.go, `CompactStates`: idle states go after a time, and beyond a number.
use malert.Base.{
  ℕ, zero, suc, ◌-◌, Bool, not, ◌&&◌, ◌||◌, List, [], ◌∷◌, if◌then◌else◌, leb, length, Text, Time,
  is_zero, before, Duration, elapsed, leb_i64, ltb_i64, Int64, delete, has_key,
}
use malert.Engine.State.{RuntimeState, States, is_idle}

-- The guards of the first loop: an idle state that was seen, `idle_ttl` ago or longer.
unfoldable pub is_expired : Time → Duration → RuntimeState → Bool
is_expired now idle_ttl s =
    is_idle s.current_state && not (is_zero s.last_seen) && elapsed now s.last_seen idle_ttl

-- The first loop.
unfoldable pub drop_expired : Time → Duration → States → States
unfolding is_expired
drop_expired now idle_ttl [] = []
drop_expired now idle_ttl ((id, s) ∷ states) =
    let rest = drop_expired now idle_ttl states in
    if is_expired now idle_ttl s then rest else (id, s) ∷ rest

pub record Candidate : Type 0 where
  pub alert_id : Text
  pub last_seen : Time

-- The second loop.
unfoldable pub candidates : States → List Candidate
candidates [] = []
candidates ((id, s) ∷ states) =
    let rest = candidates states in
    if is_idle s.current_state
    then record { alert_id = id; last_seen = s.last_seen } ∷ rest
    else rest

-- sort.Slice by `lastSeen`, oldest first. Candidates that were last seen at one time may come in any
-- order in the source; the order of the map decides here.
unfoldable pub insert_candidate : Candidate → List Candidate → List Candidate
insert_candidate c [] = c ∷ []
insert_candidate c (d ∷ ds) =
    if before d.last_seen c.last_seen then d ∷ insert_candidate c ds else c ∷ d ∷ ds

unfoldable pub sort_candidates : List Candidate → List Candidate
unfolding insert_candidate
sort_candidates [] = []
sort_candidates (c ∷ cs) = insert_candidate c (sort_candidates cs)

-- What is left of the states, and the counter `removed`.
pub record Compaction : Type 0 where
  pub states : States
  pub removed : ℕ

-- How often the first loop adds one to `removed`.
unfoldable pub count_expired : Time → Duration → States → ℕ
unfolding is_expired
count_expired now idle_ttl [] = 0
count_expired now idle_ttl ((id, s) ∷ states) =
    let rest = count_expired now idle_ttl states in
    if is_expired now idle_ttl s then suc rest else rest

-- The last loop: while `need` is positive, evict the next candidate that is still there.
unfoldable pub evict : List Candidate → ℕ → Compaction → Compaction
evict [] need c = c
evict (x ∷ xs) zero c = c
evict (x ∷ xs) (suc need) c =
    let gone : Compaction = record {
      states = delete x.alert_id c.states;
      removed = suc c.removed;
    } in
    if has_key x.alert_id c.states then evict xs need gone else evict xs (suc need) c

-- The part of `CompactStates` before its early return.
unfoldable pub expire : Time → Duration → States → Compaction
unfolding drop_expired count_expired
expire now idle_ttl states =
    if ltb_i64 0 idle_ttl
    then record {
      states = drop_expired now idle_ttl states;
      removed = count_expired now idle_ttl states;
    }
    else record { states = states; removed = 0 }

-- The part behind it. `max_states` is an int; `len` is never negative, and neither is the number of
-- states over the limit.
unfoldable pub enforce : Int64 → Compaction → Compaction
unfolding candidates sort_candidates evict
enforce max_states c =
    if leb_i64 max_states 0 || leb (length c.states) max_states
    then c
    else evict (sort_candidates (candidates c.states)) (length c.states - max_states) c

-- `CompactStates`.
unfoldable pub compact_states : Time → Duration → Int64 → States → Compaction
unfolding expire enforce
compact_states now idle_ttl max_states states = enforce max_states (expire now idle_ttl states)
