-- ===== src/Manager/Expiry.antt =====
-- internal/app/manager.go, `ResolveByTTL` on the in-memory store.
use malert.Base.{
  Bool-cases, Option-cases, Time, lookup, Text, ◌≡◌, refl, ◌⊎◌, inl, inr, Bool, true, false, none,
  some, arith, ◌==◌, lookup-delete_self, ℕ, sym, ap, ◌∙◌, lookup-insert_self,
}
use malert.Manager.App.{World, App}
use malert.Manager.Closing.{expired_card, drop_alert, close_expired, resolve_card, resolve_by_ttl}
use malert.Manager.Notice.{resolve_card_raised_at}
use malert.State.Interface.{memory_store}
use malert.State.Memory.{
  MemoryCard, MemoryStore, has_tick_between, has_tick, get_card, write_card, update_card,
  delete_card, next_revision,
}
use malert.Engine.State.{is_active}
use malert.Domain.{AlertCard}

-- The world whose store is the in-memory one, at a reading of its clock.
abbrev pub on_memory : World → Time → World
on_memory w t = record w { store = memory_store w.unicode t }

-- The store holds a card of a pending or firing alert.
unfoldable pub has_open_card : MemoryStore → Text → Bool
has_open_card store id = elim (lookup id store.cards) [
  | none ↦ false
  | some entry ↦ is_active entry.card.state
]

has_open_card-none :
    (store : MemoryStore) (id : Text)
    → lookup id store.cards ≡ none
    → has_open_card store id ≡ false
unfolding has_open_card
has_open_card-none store id h = rw (has_open_card, h) refl

has_open_card-some :
    (store : MemoryStore) (id : Text) (entry : MemoryCard)
    → lookup id store.cards ≡ some entry
    → has_open_card store id ≡ is_active entry.card.state
unfolding has_open_card
has_open_card-some store id entry h = rw (has_open_card, h) refl

expired_card-state :
    (card : AlertCard) (reason : Text) (closed_at : Time)
    → is_active (expired_card card reason closed_at).state ≡ false
unfolding expired_card resolve_card_raised_at
expired_card-state card reason closed_at = ground arith

pub eq_refl : (n : ℕ) → (n == n) ≡ true
eq_refl n = ground arith

has_tick-alive :
    (store : MemoryStore) (id : Text) (t : Time)
    → (has_tick store id t).1 ≡ true
    → (has_tick store id t).0 ≡ store
unfolding has_tick has_tick_between
has_tick-alive store id t h = ground arith

has_tick-cards :
    (store : MemoryStore) (id : Text) (t : Time) → (has_tick store id t).0.cards ≡ store.cards
unfolding has_tick has_tick_between
has_tick-cards store id t = ground arith

-- The alert needs no resolve: its tick is alive, or its card is closed or gone.
abbrev pub Closed : Time → Text → MemoryStore → Type 0
Closed t id store = ((has_tick store id t).1 ≡ true) ⊎ (has_open_card store id ≡ false)

module _ (w : World) (t : Time) where
  -- Behind the update, the card is closed, and it stays so or goes.
  close_expired-Closed :
      (id : Text) (card : AlertCard) (closed_at : Time) (app : App (on_memory w t))
      → has_open_card app.backend id ≡ false
      → has_open_card (close_expired id card closed_at app).0.backend id ≡ false
  unfolding close_expired drop_alert delete_card
  close_expired-Closed id card closed_at app h =
      elim (Option-cases (lookup card.rule_name app.settings.rules)) [
        | inl e ↦ rw (close_expired, e) h
        | inr (rule, e) ↦ rw (close_expired, e) (has_open_card-none _ id (lookup-delete_self id _))
      ]

  resolve_card-Closed :
      (id reason : Text) (app : App (on_memory w t)) (entry : MemoryCard)
      → lookup id app.backend.cards ≡ some entry
      → has_open_card (resolve_card id reason (entry.card, entry.revision) app).0.backend id ≡ false
  unfolding resolve_card update_card write_card
  resolve_card-Closed id reason app entry h = elim (Bool-cases (is_active entry.card.state)) [
    | inr e ↦ rw e (has_open_card-some app.backend id entry h ∙ e)
    | inl e ↦
        let closed_at = (w.read_clock app.clock).1 in
        let card = expired_card entry.card reason closed_at in
        let revision = next_revision entry.revision in
        let written : App (on_memory w t) = record app {
          backend = write_card app.backend id card revision;
          clock = (w.read_clock app.clock).0;
        } in
        let shut : has_open_card written.backend id ≡ false =
          has_open_card-some written.backend id (record { card = card; revision = revision })
            (lookup-insert_self id (record { card = card; revision = revision }) app.backend.cards)
          ∙ expired_card-state entry.card reason closed_at in
        rw (e, update_card, h, eq_refl entry.revision)
          (close_expired-Closed id card closed_at written shut)
  ]

  resolve_by_ttl-Closed :
      (id reason : Text) (app : App (on_memory w t))
      → Closed t id (resolve_by_ttl id reason app).0.backend
  unfolding resolve_by_ttl get_card
  resolve_by_ttl-Closed id reason app = elim (Bool-cases (has_tick app.backend id t).1) [
    | inl e ↦ inl (rw e (rw (has_tick-alive app.backend id t e) e))
    | inr e ↦ inr (
        rw e (elim (Option-cases (lookup id (has_tick app.backend id t).0.cards)) [
          | inl q ↦ rw (get_card, q) (has_open_card-none _ id q)
          | inr (entry, q) ↦ rw (get_card, q) (resolve_card-Closed id reason _ entry q)
        ]))
  ]

  resolve_by_ttl-outbox :
      (id reason : Text) (app : App (on_memory w t))
      → Closed t id app.backend
      → (resolve_by_ttl id reason app).0.outbox ≡ app.outbox
  unfolding resolve_by_ttl get_card resolve_card
  resolve_by_ttl-outbox id reason app (inl e) = rw e refl
  resolve_by_ttl-outbox id reason app (inr h) = elim (Bool-cases (has_tick app.backend id t).1) [
    | inl e ↦ rw e refl
    | inr e ↦ rw e (elim (Option-cases (lookup id (has_tick app.backend id t).0.cards)) [
      | inl q ↦ rw (get_card, q) refl
      | inr (entry, q) ↦
          let closed : is_active entry.card.state ≡ false =
            sym (
              has_open_card-some app.backend id entry
                (ap (lookup id) (sym (has_tick-cards app.backend id t)) ∙ q))
            ∙ h in
          rw (get_card, q) (rw closed refl)
    ])
  ]

  -- On the in-memory store, when the expiry of one tick is reported twice, with no other call in
  -- between and at one reading of the store's clock, the second report sends nothing: the first one
  -- left the alert with a tick that is alive, with a closed card, or with no card.
  pub resolve_by_ttl_twice :
      (id reason again : Text) (app : App (on_memory w t))
      → let first = (resolve_by_ttl id reason app).0 in
        Closed t id first.backend × ((resolve_by_ttl id again first).0.outbox ≡ first.outbox)
  resolve_by_ttl_twice id reason again app =
      let closed = resolve_by_ttl-Closed id reason app in
      (closed, resolve_by_ttl-outbox id again _ closed)
