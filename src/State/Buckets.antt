-- ===== src/State/Buckets.antt =====
-- What a key-value bucket of NATS promises to internal/state/nats_store.go.
-- A write that took place: the key has the body and the revision that is returned, and the other
-- keys have what they had.
use malert.Domain.{AlertCard}
use malert.Base.{codes, ◌++◌, Text, ℕ, ◌≡◌, ◌≢◌, ◌⊎◌, inl, inr, Option, none, some}
use malert.State.Nats.{KvError, key_not_found, key_exists, kv_other, KvEntry, NatsKv, CardCodec}
use malert.State.Laws.{Request, create, put, update}

abbrev pub Written :
    {N : Type 0} → (N → Text → Option KvEntry) → Text → Text → N → N × (KvError ⊎ ℕ) → Type 0
Written held id body n (later, outcome) =
    (revision : ℕ) × (outcome ≡ inr revision)
    × (held later id ≡ some (record { value = body; revision = revision }))
    × ((j : Text) → id ≢ j → held later j ≡ held n j)

-- A write that a bucket refused: no key changes, and the error is of the given kind.
abbrev pub Refused :
    {N : Type 0} → (KvError → Type 0) → (N → Text → Option KvEntry) → N → N × (KvError ⊎ ℕ) → Type 0
Refused Kind held n (later, outcome) =
    (e : KvError) × (outcome ≡ inl e) × Kind e × ((j : Text) → held later j ≡ held n j)

-- nats.ErrKeyExists.
abbrev pub KeyExists : KvError → Type 0
KeyExists e = e ≡ key_exists

-- The server's error for an update with another revision than the last one: its text has these
-- words, with what comes before and after them left open.
abbrev pub WrongSequence : {N : Type 0} → NatsKv N → KvError → Type 0
WrongSequence kv e =
    (t before rest : Text) × (e ≡ kv_other t)
    × (kv.kv_error_text (kv_other t) ≡ before ++ (codes "wrong last sequence" ++ rest))

-- What the data bucket promises: `held` is the entry that it has under a key.
pub record KvLaws {N : Type 0} (kv : NatsKv N) : Type 0 where
  pub held : N → Text → Option KvEntry
  pub reads :
      (n : N) (id : Text) (entry : KvEntry)
      → held n id ≡ some entry
      → (kv.data_get n id).1 ≡ inr entry
  pub misses : (n : N) (id : Text) → held n id ≡ none → (kv.data_get n id).1 ≡ inl key_not_found
  pub create_absent :
      (n : N) (id body : Text)
      → held n id ≡ none
      → Written held id body n (kv.data_create n id body)
  pub create_present :
      (n : N) (id body : Text) (entry : KvEntry)
      → held n id ≡ some entry
      → Refused KeyExists held n (kv.data_create n id body)
  pub puts : (n : N) (id body : Text) → Written held id body n (kv.data_put n id body)
  pub update_same :
      (n : N) (id body : Text) (entry : KvEntry)
      → held n id ≡ some entry
      → Written held id body n (kv.data_update n id body entry.revision)
  pub update_other :
      (n : N) (id body : Text) (entry : KvEntry) (expected : ℕ)
      → held n id ≡ some entry
      → entry.revision ≢ expected
      → Refused (WrongSequence kv) held n (kv.data_update n id body expected)

-- json.Marshal writes the card, and json.Unmarshal reads it back.
pub record CodecLaws (codec : CardCodec) (card : AlertCard) : Type 0 where
  pub body : Text
  pub marshals : codec.marshal_card card ≡ inr body
  pub unmarshals : codec.unmarshal_card body ≡ inr card

-- The requests that a key admits, and those that lose there.
abbrev pub Admits : Option KvEntry → Request → Type 0
Admits none (create card) = Unit
Admits (some entry) (create card) = ⊥
Admits held (put card) = Unit
Admits none (update expected card) = ⊥
Admits (some entry) (update expected card) = entry.revision ≡ expected

abbrev pub Loses : Option KvEntry → Request → Type 0
Loses none (create card) = ⊥
Loses (some entry) (create card) = Unit
Loses held (put card) = ⊥
Loses none (update expected card) = ⊥
Loses (some entry) (update expected card) = entry.revision ≢ expected
