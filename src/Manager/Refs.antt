-- ===== src/Manager/Refs.antt =====
-- internal/app/manager.go, `persistExternalRefs`: the references that a card keeps over a restart.
use malert.Base.{
  Bool-cases, Assoc, lookup, insert, lookup-insert, Fresh, Distinct, Text, text_eq, ◌≡◌, refl, ◌∙◌,
  inl, inr, false, some, [], ◌∷◌, arith, if◌then◌else◌, Time, lookup-insert_self, text_eq_iff, ap,
  subst, ℕ, suc, sym, true,
}
use malert.Manager.Cards.{text_or_empty, merge_refs, persist_external_refs, persist_refs_attempts}
use malert.Manager.App.{World, App, done}
use malert.Manager.Expiry.{on_memory, eq_refl}
use malert.State.Memory.{MemoryCard, get_card, write_card, next_revision, update_card}
use malert.Domain.{AlertCard}

-- A key that is not among the updates keeps its reference.
merge_refs-other :
    (k : Text) (updates refs : Assoc Text)
    → Fresh k updates
    → lookup k (merge_refs updates refs).0 ≡ lookup k refs
unfolding merge_refs
merge_refs-other k [] refs f = refl
merge_refs-other k ((j, ref) ∷ updates) refs f =
    let same = text_eq (text_or_empty (lookup j refs)) ref in
    merge_refs-other k updates (if same then refs else insert j ref refs) f.1
    ∙ elim (Bool-cases same) [
      | inl e ↦ rw e refl
      | inr e ↦ rw (e, lookup-insert j k ref refs, f.0) refl
    ]

-- The reference under a key, once the loop has passed it.
written_ref :
    (j r : Text) (refs : Assoc Text)
    → text_or_empty
        (lookup j (if text_eq (text_or_empty (lookup j refs)) r then refs else insert j r refs))
      ≡ r
written_ref j r refs = elim (Bool-cases (text_eq (text_or_empty (lookup j refs)) r)) [
  | inl e ↦ rw e ((text_eq_iff (text_or_empty (lookup j refs)) r).0 e)
  | inr e ↦ rw (e, lookup-insert_self j r refs) refl
]

merge_refs-updated :
    (k ref : Text) (updates refs : Assoc Text)
    → Distinct updates
    → lookup k updates ≡ some ref
    → text_or_empty (lookup k (merge_refs updates refs).0) ≡ ref
unfolding merge_refs lookup
merge_refs-updated k ref [] refs d h = cc
merge_refs-updated k ref ((j, r) ∷ updates) refs d h =
    let same = text_eq (text_or_empty (lookup j refs)) r in
    let next = if same then refs else insert j r refs in
    elim (Bool-cases (text_eq j k)) [
      | inr e ↦ merge_refs-updated k ref updates next d.1 (rw e at h)
      | inl e ↦
          let value : some r ≡ some ref = rw e at h in
          let equal : r ≡ ref = cc in
          subst (λ i. text_or_empty (lookup i (merge_refs updates next).0) ≡ ref)
            ((text_eq_iff j k).0 e)
            (ap text_or_empty (merge_refs-other j updates next d.0) ∙ written_ref j r refs ∙ equal)
    ]

merge_refs-unchanged :
    (updates refs : Assoc Text)
    → (merge_refs updates refs).1 ≡ false
    → (merge_refs updates refs).0 ≡ refs
unfolding merge_refs
merge_refs-unchanged [] refs h = refl
merge_refs-unchanged ((j, r) ∷ updates) refs h =
    elim (Bool-cases (text_eq (text_or_empty (lookup j refs)) r)) [
      | inl e ↦ rw e (merge_refs-unchanged updates refs (rw e at h))
      | inr e ↦ ground (arith, rw e at h)
    ]

module _ (w : World) (t : Time) where
  -- An attempt that finds nothing to change ends the loop.
  attempt-same :
      (n : ℕ) (id : Text) (updates : Assoc Text) (app : App (on_memory w t)) (entry : MemoryCard)
      → lookup id app.backend.cards ≡ some entry
      → (merge_refs updates entry.card.external_refs).1 ≡ false
      → persist_refs_attempts (suc n) id updates app ≡ (app, done tt)
  unfolding persist_refs_attempts get_card
  attempt-same n id updates app entry h e = rw (persist_refs_attempts, get_card, h, e) refl

  -- The card as the loop writes it.
  abbrev merged_card : Assoc Text → AlertCard → AlertCard
  merged_card updates card = record card {
    external_refs = (merge_refs updates card.external_refs).0;
  }

  attempt-written :
      (n : ℕ) (id : Text) (updates : Assoc Text) (app : App (on_memory w t)) (entry : MemoryCard)
      → lookup id app.backend.cards ≡ some entry
      → (merge_refs updates entry.card.external_refs).1 ≡ true
      → persist_refs_attempts (suc n) id updates app ≡ (
        record app {
          backend =
              write_card app.backend id
                (merged_card updates entry.card)
                (next_revision entry.revision);
        },
        done tt,
      )
  unfolding persist_refs_attempts get_card update_card
  attempt-written n id updates app entry h e =
      rw (persist_refs_attempts, get_card, h, e, update_card, h, eq_refl entry.revision) refl

  -- On the in-memory store, with no call of others in between, a card that is there takes over every
  -- reference at the first attempt: the method succeeds, the card afterwards has each of the new
  -- references, and the other fields are as they were.
  pub persist_external_refs-stored :
      (id : Text) (updates : Assoc Text) (app : App (on_memory w t)) (entry : MemoryCard)
      → lookup id app.backend.cards ≡ some entry
      → Distinct updates
      → let r = persist_external_refs id updates app in
        (r.1 ≡ done tt)
        × ((after : MemoryCard) × ((lookup id r.0.backend.cards ≡ some after)
              × ((record (after.card) { external_refs = entry.card.external_refs } ≡ entry.card)
                  × ((k ref : Text)
                      → lookup k updates ≡ some ref
                      → text_or_empty (lookup k after.card.external_refs) ≡ ref))))
  unfolding persist_external_refs lookup write_card
  persist_external_refs-stored id [] app entry h d = (refl, (entry, (h, (refl, λ k ref e. cc))))
  persist_external_refs-stored id (u ∷ updates) app entry h d =
      let all = u ∷ updates in
      let has =
        λ (k : Text) (ref : Text). merge_refs-updated k ref all entry.card.external_refs d in
      elim (Bool-cases (merge_refs all entry.card.external_refs).1) [
        | inr e ↦
            let same = merge_refs-unchanged all entry.card.external_refs e in
            rw (attempt-same 2 id all app entry h e) (
              refl,
              (
                entry,
                (
                  h,
                  (refl, λ k ref q. ap (λ m. text_or_empty (lookup k m)) (sym same) ∙ has k ref q),
                ),
              ),
            )
        | inl e ↦
            let after : MemoryCard = record {
              card = merged_card all entry.card;
              revision = next_revision entry.revision;
            } in
            rw (attempt-written 2 id all app entry h e)
              (refl, (after, (lookup-insert_self id after app.backend.cards, (refl, has))))
      ]
