-- ===== src/State/Memory.antt =====
-- internal/state/memory_store.go. The context argument is not read, and the mutex makes each call
-- one step. The clock is the argument `now` of the calls that read it. A call that cannot fail
-- returns no error.
use malert.Domain.{AlertCard}
use malert.Base.{
  ◌==◌, Time, Duration, zero_time, is_zero, before, Assoc, lookup, insert, delete, has_key,
  int64_mod, ltb_i64, Text, codes, trim_space, has_prefix, Unicode, to_lower, ℕ, ◌+◌, ◌%◌, Bool,
  true, false, ◌||◌, Option, none, some, List, [], ◌∷◌, ◌++◌, if◌then◌else◌,
}

pub record MemoryCard : Type 0 where
  pub card : AlertCard
  pub revision : ℕ

-- `memoryTick`: the time at which the tick expires, zero for never.
pub record MemoryTick : Type 0 where
  pub expires_at : Time

pub record MemoryStore : Type 0 where
  pub cards : Assoc MemoryCard
  pub ticks : Assoc MemoryTick

pub data StoreError : Type 0 where
  not_found conflict : StoreError
  other_error : Text → StoreError

pub data Result {ℓ} (A : Type ℓ) : Type ℓ where
  ok : A → Result A
  err : StoreError → Result A

-- `NewMemoryStore`.
unfoldable pub new_store : MemoryStore
new_store = record { cards = []; ticks = [] }

-- `RefreshTick`.
unfoldable pub refresh_tick : MemoryStore → Text → Time → Duration → MemoryStore
refresh_tick store id last_seen ttl =
    let expires : Time = if ltb_i64 0 ttl then last_seen + ttl else zero_time in
    record store { ticks = insert id (record { expires_at = expires }) store.ticks }

-- The test of `HasTick` on an entry that is there.
abbrev pub is_alive : Time → MemoryTick → Bool
is_alive now tick = is_zero tick.expires_at || before now tick.expires_at

-- `HasTick`. Between the two sections under the lock other calls may come; `now` and `later` are
-- the two readings of the clock, `between` what the other calls make of the store.
unfoldable pub has_tick_between :
    (MemoryStore → MemoryStore) → MemoryStore → Text → Time → Time → MemoryStore × Bool
has_tick_between between store id now later = elim (lookup id store.ticks) [
  | none ↦ (store, false)
  | some tick ↦
      if is_alive now tick then (store, true) else elim (lookup id (between store).ticks) [
        | none ↦ (between store, false)
        | some again ↦
            if is_alive later again
            then (between store, true)
            else (record (between store) { ticks = delete id (between store).ticks }, false)
      ]
]

-- `HasTick` with no other call in between, and at one reading of the clock.
unfoldable pub has_tick : MemoryStore → Text → Time → MemoryStore × Bool
unfolding has_tick_between
has_tick store id now = has_tick_between (λ s. s) store id now now

-- `GetCard`.
unfoldable pub get_card : MemoryStore → Text → Result (AlertCard × ℕ)
get_card store id = elim (lookup id store.cards) [
  | none ↦ err not_found
  | some entry ↦ ok (entry.card, entry.revision)
]

-- `writeCardLocked`; it returns the revision that it is given.
unfoldable pub write_card : MemoryStore → Text → AlertCard → ℕ → MemoryStore
write_card store id card revision = record store {
  cards = insert id (record { card = card; revision = revision }) store.cards;
}

-- A uint64 one further.
unfoldable pub next_revision : ℕ → ℕ
next_revision r = (r + 1) % int64_mod

-- `CreateCard`.
unfoldable pub create_card : MemoryStore → Text → AlertCard → MemoryStore × Result ℕ
unfolding write_card
create_card store id card =
    if has_key id store.cards then (store, err conflict) else (write_card store id card 1, ok 1)

-- The revision of `s.cards[alertID]`, zero for an absent key.
abbrev pub revision_of : Option MemoryCard → ℕ
revision_of none = 0
revision_of (some entry) = entry.revision

-- `PutCard`.
unfoldable pub put_card : MemoryStore → Text → AlertCard → MemoryStore × Result ℕ
unfolding write_card next_revision
put_card store id card =
    let revision = next_revision (revision_of (lookup id store.cards)) in
    (write_card store id card revision, ok revision)

-- `UpdateCard`.
unfoldable pub update_card : MemoryStore → Text → ℕ → AlertCard → MemoryStore × Result ℕ
unfolding write_card next_revision
update_card store id expected card = elim (lookup id store.cards) [
  | none ↦ (store, err not_found)
  | some entry ↦
      if entry.revision == expected
      then (write_card store id card (next_revision expected), ok (next_revision expected))
      else (store, err conflict)
]

-- `DeleteCard`.
unfoldable pub delete_card : MemoryStore → Text → MemoryStore
delete_card store id = record store { cards = delete id store.cards; ticks = delete id store.ticks }

-- The loop of `ListAlertIDsByRule`.
unfoldable pub ids_with_prefix : Text → Assoc MemoryCard → List Text
ids_with_prefix prefix [] = []
ids_with_prefix prefix ((id, c) ∷ cards) =
    let rest = ids_with_prefix prefix cards in if has_prefix id prefix then id ∷ rest else rest

module _ (u : Unicode) where
  -- `RuleAlertPrefix`.
  unfoldable pub rule_alert_prefix : Text → Text
  rule_alert_prefix name = codes "rule/" ++ (to_lower u (trim_space name) ++ codes "/")

  -- `ListAlertIDsByRule`.
  unfoldable pub list_alert_ids_by_rule : MemoryStore → Text → List Text
  unfolding ids_with_prefix
  list_alert_ids_by_rule store name = ids_with_prefix (rule_alert_prefix name) store.cards
