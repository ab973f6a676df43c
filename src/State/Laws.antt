-- ===== src/State/Laws.antt =====
-- What the store promises: each ID is a register that writes compare and set, and a tick expires.
use malert.Domain.{AlertCard}
use malert.Base.{
  ltb, ◌==◌, Time, Duration, lookup, has_key, lookup-insert_self, lookup-insert_ne,
  lookup-delete_self, lookup-delete_ne, int64_half, Text, ℕ, ◌+◌, ◌<◌, ◌≡◌, ◌≢◌, false, ◌||◌,
  Option, none, some, arith, if◌then◌else◌, zero_time, insert, ltb_i64, leb, int64_mod, ◌&&◌,
}
use malert.State.Memory.{
  MemoryCard, MemoryStore, not_found, conflict, Result, ok, err, refresh_tick, has_tick, get_card,
  write_card, next_revision, create_card, revision_of, put_card, update_card, delete_card,
  MemoryTick,
}
use malert.Engine.Timing.{second}
use malert.Manager.App.{after}

-- The card and the revision that a read of the ID returns.
abbrev pub stored : MemoryStore → Text → Option (AlertCard × ℕ)
stored store id = elim (lookup id store.cards) [
  | none ↦ none
  | some entry ↦ some (entry.card, entry.revision)
]

-- The three ways to write a card.
pub data Request : Type 0 where
  create : AlertCard → Request
  put : AlertCard → Request
  update : ℕ → AlertCard → Request

pub perform : MemoryStore → Text → Request → MemoryStore × Result ℕ
unfolding create_card put_card update_card
perform store id (create card) = create_card store id card
perform store id (put card) = put_card store id card
perform store id (update expected card) = update_card store id expected card

abbrev pub card_of : Request → AlertCard
card_of (create card) = card
card_of (put card) = card
card_of (update expected card) = card

-- The register: what it answers to a request, and what it holds then.
abbrev pub respond : Option (AlertCard × ℕ) → Request → Result ℕ
respond none (create card) = ok 1
respond none (put card) = ok 1
respond none (update expected card) = err not_found
respond (some (old, revision)) (create card) = err conflict
respond (some (old, revision)) (put card) = ok (next_revision revision)
respond (some (old, revision)) (update expected card) =
    if revision == expected then ok (next_revision expected) else err conflict

abbrev pub settle : Option (AlertCard × ℕ) → AlertCard → Result ℕ → Option (AlertCard × ℕ)
settle held card (ok revision) = some (card, revision)
settle held card (err e) = held

-- A write answers as the register does and leaves in it what the register holds then; every other
-- ID keeps its card, the ticks stay, and a refused write changes nothing.
pub perform-respond :
    (store : MemoryStore) (id : Text) (request : Request)
    → let r = perform store id request in
      (r.1 ≡ respond (stored store id) request)
      × (stored r.0 id ≡ settle (stored store id) (card_of request) r.1)
      × ((j : Text) → id ≢ j → stored r.0 j ≡ stored store j)
      × (r.0.ticks ≡ store.ticks)
unfolding perform write_card next_revision
perform-respond store id (create card) =
    let entry : MemoryCard = record { card = card; revision = 1 } in
    (
      ground arith,
      ground (arith, lookup-insert_self id entry store.cards),
      (λ j h. ground (arith, lookup-insert_ne id j entry store.cards h)),
      ground arith,
    )
perform-respond store id (put card) =
    let entry : MemoryCard = record {
      card = card;
      revision = next_revision (revision_of (lookup id store.cards));
    } in
    (
      ground arith,
      ground (arith, lookup-insert_self id entry store.cards),
      (λ j h. ground (arith, lookup-insert_ne id j entry store.cards h)),
      ground arith,
    )
perform-respond store id (update expected card) =
    let entry : MemoryCard = record { card = card; revision = next_revision expected } in
    (
      ground arith,
      ground (arith, lookup-insert_self id entry store.cards),
      (λ j h. ground (arith, lookup-insert_ne id j entry store.cards h)),
      ground arith,
    )

next-ne : (r : ℕ) → next_revision r ≢ r
unfolding next_revision
next-ne r h = omega arith

-- Of two updates that have read the same revision at most the first is made: if it succeeds, the
-- second is refused with a conflict and changes nothing, and a read returns the first one's card.
pub update_card-first_wins :
    (store after : MemoryStore) (id : Text) (expected revision : ℕ) (first second : AlertCard)
    → update_card store id expected first ≡ (after, ok revision)
    → (update_card after id expected second ≡ (after, err conflict))
      × (get_card after id ≡ ok (first, revision))
unfolding update_card get_card write_card
update_card-first_wins store after id expected revision first second h =
    let entry : MemoryCard = record { card = first; revision = next_revision expected } in
    ground (arith, lookup-insert_self id entry store.cards, next-ne expected)

-- A deleted alert has neither card nor tick; all others keep theirs.
pub delete_card-lookup :
    (store : MemoryStore) (id : Text) (now : Time)
    → let s = delete_card store id in
      (get_card s id ≡ err not_found)
      × ((has_tick s id now).1 ≡ false)
      × ((j : Text)
          → id ≢ j
          → (get_card s j ≡ get_card store j) × ((has_tick s j now).1 ≡ (has_tick store j now).1))
unfolding delete_card get_card has_tick
delete_card-lookup store id now = (
  ground (arith, lookup-delete_self id store.cards),
  ground (arith, lookup-delete_self id store.ticks),
  λ j h. (
    ground (arith, lookup-delete_ne id j store.cards h),
    ground (arith, lookup-delete_ne id j store.ticks h),
  ),
)

positive_ttl :
    (ttl : Duration) → ttl < int64_mod → ltb_i64 0 ttl ≡ (ltb 0 ttl && ltb ttl int64_half)
unfolding ltb_i64
positive_ttl ttl h = ground arith

-- A tick that was refreshed with a positive ttl is there until ttl has passed since last_seen, and
-- is gone from then on, also from the store; with a ttl of zero or a negative one, the words from
-- 2^63 on, it stays.
pub has_tick-refresh_tick :
    (store : MemoryStore) (id : Text) (last_seen : Time) (ttl : Duration) (now : Time)
    → ttl < int64_mod
    → let r = has_tick (refresh_tick store id last_seen ttl) id now in
      (r.1 ≡ (ttl == 0 || leb int64_half ttl || ltb now (last_seen + ttl)))
      × (has_key id r.0.ticks ≡ r.1)
unfolding has_tick refresh_tick
has_tick-refresh_tick store id last_seen ttl now h =
    let expires : Time = if ltb_i64 0 ttl then last_seen + ttl else zero_time in
    let tick : MemoryTick = record { expires_at = expires } in
    let positive = positive_ttl ttl h in
    let held = lookup-insert_self id tick store.ticks in
    let gone = lookup-delete_self id (insert id tick store.ticks) in
    (ground (arith, positive, held), ground (arith, positive, held, gone))
