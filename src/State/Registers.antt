-- ===== src/State/Registers.antt =====
-- internal/state/nats_store.go: the store on two buckets, where the buckets are registers that
-- compare and set, as NATS documents it. The errors of json.Marshal do not occur then.
use malert.Domain.{AlertCard}
use malert.Base.{
  Text, Unicode, ℕ, ◌≡◌, ◌≢◌, ◌⊎◌, inl, inr, Option, none, some, Option-cases, refl, sym, ap, ◌∙◌,
  codes, subst, true,
}
use malert.State.Nats.{
  KvError, key_not_found, KvEntry, NatsKv, CardCodec, nats_create_card, nats_put_card,
  nats_update_card, write_result, write_nats_card, decoded_card, read_result, nats_get_card,
  write_encoded, is_nats_card_conflict,
}
use malert.State.Laws.{Request, create, put, update, card_of}
use malert.State.Memory.{Result, not_found, conflict, ok, err}
use malert.State.Buckets.{
  Written, Refused, KvLaws, CodecLaws, Admits, Loses, KeyExists, WrongSequence,
}
use malert.State.Conflicts.{KeyExists-conflict, WrongSequence-conflict}

inl_ne : {A : Type 0} {B : Type 0} {a : A} {b : B} → Path (A ⊎ B) (inl a) (inr b) → ⊥
inl_ne h = cc

module _ {N : Type 0} (kv : NatsKv N) (codec : CardCodec) (u : Unicode) where
  -- The write that a request asks for.
  unfoldable pub nats_perform : N → Text → Request → N × Result ℕ
  unfolding nats_create_card nats_put_card nats_update_card
  nats_perform n id (create card) = nats_create_card kv codec u n id card
  nats_perform n id (put card) = nats_put_card kv codec u n id card
  nats_perform n id (update expected card) = nats_update_card kv codec u n id expected card

  -- A write that its key admits: it gives a revision, with which the card is then read; the other keys
  -- are read as before.
  abbrev pub TookPlace : N → Text → AlertCard → N × Result ℕ → Type 0
  TookPlace n id card (later, answer) =
      (revision : ℕ) × (answer ≡ ok revision)
      × ((nats_get_card kv codec u later id).1 ≡ ok (card, revision))
      × ((j : Text)
          → id ≢ j
          → (nats_get_card kv codec u later j).1 ≡ (nats_get_card kv codec u n j).1)

  abbrev pub Lost : N → N × Result ℕ → Type 0
  Lost n (later, answer) =
      (answer ≡ err conflict)
      × ((j : Text) → (nats_get_card kv codec u later j).1 ≡ (nats_get_card kv codec u n j).1)

module _ {N : Type 0} (kv : NatsKv N) (codec : CardCodec) (u : Unicode) (laws : KvLaws kv) where
  -- What a read returns, by the entry under the key.
  unfoldable read_of : Option KvEntry → Result (AlertCard × ℕ)
  unfolding decoded_card
  read_of none = err not_found
  read_of (some entry) = decoded_card kv codec u entry.revision (codec.unmarshal_card entry.value)

  read_result-inr :
      (n : N) (entry : KvEntry) (x : N × (KvError ⊎ KvEntry))
      → x.1 ≡ inr entry
      → (read_result kv codec u x).1 ≡ read_of (some entry)
  unfolding read_result read_of
  read_result-inr n entry (t, outcome) h = rw h refl

  read_result-missing :
      (x : N × (KvError ⊎ KvEntry))
      → x.1 ≡ inl key_not_found
      → (read_result kv codec u x).1 ≡ err not_found
  unfolding read_result
  read_result-missing (t, outcome) h = rw h refl

  nats_get_card-held :
      (n : N) (id : Text) → (nats_get_card kv codec u n id).1 ≡ read_of (laws.held n id)
  unfolding nats_get_card read_of
  nats_get_card-held n id = elim (Option-cases (laws.held n id)) [
    | inl e ↦ rw e (read_result-missing (kv.data_get n id) (laws.misses n id e))
    | inr (entry, e) ↦ rw e (read_result-inr n entry (kv.data_get n id) (laws.reads n id entry e))
  ]

  same_reads :
      (n later : N) (j : Text)
      → laws.held later j ≡ laws.held n j
      → (nats_get_card kv codec u later j).1 ≡ (nats_get_card kv codec u n j).1
  same_reads n later j h = nats_get_card-held later j ∙ ap read_of h ∙ sym (nats_get_card-held n j)

  read_back :
      (card : AlertCard) (cards : CodecLaws codec card) (revision : ℕ)
      → read_of (some (record { value = cards.body; revision = revision })) ≡ ok (card, revision)
  unfolding read_of decoded_card
  read_back card cards revision = rw (cards.unmarshals) refl

  write_nats_card-body :
      (n : N) (card : AlertCard) (cards : CodecLaws codec card) (op : Text)
      (write : Text → N × (KvError ⊎ ℕ))
      → write_nats_card kv codec u n card op write ≡ write_result kv codec u op (write cards.body)
  unfolding write_nats_card write_encoded
  write_nats_card-body n card cards op write =
      ap (write_encoded kv codec u n op write) (cards.marshals)

  write_result-TookPlace :
      (n : N) (id : Text) (card : AlertCard) (cards : CodecLaws codec card) (op : Text)
      (x : N × (KvError ⊎ ℕ))
      → Written laws.held id cards.body n x
      → TookPlace kv codec u n id card (write_result kv codec u op x)
  unfolding write_result
  write_result-TookPlace n id card cards op (later, inl bad) (revision, e, here, others) =
      absurd (inl_ne e)
  write_result-TookPlace n id card cards op (later, inr given) (revision, e, here, others) =
      let same : given ≡ revision = cc e in
      (
        revision,
        ap ok same,
        nats_get_card-held _ id ∙ ap read_of here ∙ read_back card cards revision,
        λ j ne. same_reads n _ j (others j ne),
      )

  write_result-Lost :
      (Kind : KvError → Type 0)
      → ((e : KvError) → Kind e → is_nats_card_conflict kv u e ≡ true)
      → (n : N) (op : Text) (x : N × (KvError ⊎ ℕ)) → Refused Kind laws.held n x
      → Lost kv codec u n (write_result kv codec u op x)
  unfolding write_result
  write_result-Lost Kind clash n op (later, inr given) (bad, e, kind, others) =
      absurd (inl_ne (sym e))
  write_result-Lost Kind clash n op (later, inl raised) (bad, e, kind, others) =
      let same : raised ≡ bad = cc e in
      rw (same, clash bad kind) (refl, λ j. same_reads n _ j (others j))

  takes_place :
      (n : N) (id : Text) (card : AlertCard) (cards : CodecLaws codec card) (op : Text)
      (write : Text → N × (KvError ⊎ ℕ))
      → Written laws.held id cards.body n (write cards.body)
      → TookPlace kv codec u n id card (write_nats_card kv codec u n card op write)
  takes_place n id card cards op write w =
      subst (TookPlace kv codec u n id card) (sym (write_nats_card-body n card cards op write))
        (write_result-TookPlace n id card cards op (write cards.body) w)

  loses_write :
      (Kind : KvError → Type 0)
      → ((e : KvError) → Kind e → is_nats_card_conflict kv u e ≡ true)
      → (n : N) (card : AlertCard) (cards : CodecLaws codec card) (op : Text)
        (write : Text → N × (KvError ⊎ ℕ))
      → Refused Kind laws.held n (write cards.body)
      → Lost kv codec u n (write_nats_card kv codec u n card op write)
  loses_write Kind clash n card cards op write w =
      subst (Lost kv codec u n) (sym (write_nats_card-body n card cards op write))
        (write_result-Lost Kind clash n op (write cards.body) w)

  nats_perform-held :
      (n : N) (id : Text) (held : Option KvEntry) (request : Request)
      (cards : CodecLaws codec (card_of request))
      → laws.held n id ≡ held
      → (Admits held request
          → TookPlace kv codec u n id (card_of request) (nats_perform kv codec u n id request))
        × (Loses held request → Lost kv codec u n (nats_perform kv codec u n id request))
  unfolding nats_perform nats_create_card nats_put_card nats_update_card
  nats_perform-held n id none (create card) cards e = (
    λ a.
        takes_place n id card cards (codes "create") (kv.data_create n id)
          (laws.create_absent n id cards.body e),
    λ l. absurd l,
  )
  nats_perform-held n id (some entry) (create card) cards e = (
    λ a. absurd a,
    λ l.
        loses_write KeyExists (KeyExists-conflict kv u) n card cards (codes "create")
          (kv.data_create n id) (laws.create_present n id cards.body entry e),
  )
  nats_perform-held n id none (put card) cards e = (
    λ a. takes_place n id card cards (codes "put") (kv.data_put n id) (laws.puts n id cards.body),
    λ l. absurd l,
  )
  nats_perform-held n id (some entry) (put card) cards e = (
    λ a. takes_place n id card cards (codes "put") (kv.data_put n id) (laws.puts n id cards.body),
    λ l. absurd l,
  )
  nats_perform-held n id none (update expected card) cards e = (λ a. absurd a, λ l. absurd l)
  nats_perform-held n id (some entry) (update expected card) cards e = (
    λ a.
        takes_place n id card cards (codes "update") (λ body. kv.data_update n id body expected)
          (subst (λ r. Written laws.held id cards.body n (kv.data_update n id cards.body r)) a
            (laws.update_same n id cards.body entry e)),
    λ l.
        loses_write (WrongSequence kv) (WrongSequence-conflict kv u) n card cards (codes "update")
          (λ body. kv.data_update n id body expected)
          (laws.update_other n id cards.body entry expected e l),
  )

  -- Over a bucket that answers as NATS documents it (a refused create with ErrKeyExists, a refused
  -- update with a text that has "wrong last sequence"), and a codec that reads back the card that it
  -- wrote, the store is a register for each alert, as in memory: a write that the key admits takes
  -- place, and one that loses is reported as a conflict and changes nothing. A key admits a create where it
  -- is absent, a put always, and an update with the revision that it has; a create of a present key
  -- and an update with another revision than it has lose.
  pub nats_perform-register :
      (n : N) (id : Text) (request : Request) (cards : CodecLaws codec (card_of request))
      → (Admits (laws.held n id) request
          → TookPlace kv codec u n id (card_of request) (nats_perform kv codec u n id request))
        × (Loses (laws.held n id) request
            → Lost kv codec u n (nats_perform kv codec u n id request))
  nats_perform-register n id request cards =
      nats_perform-held n id (laws.held n id) request cards refl
