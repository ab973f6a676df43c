-- ===== src/State/Nats.antt =====
-- internal/state/nats_store.go: alert state in two key-value buckets of NATS. The client, JSON and
-- the text of an error are parameters; the errors of the client are told apart as the code does.
use malert.Base.{
  Text, ltb, Duration, Int64, int64_mod, int64_half, ltb_i64, codes, has_prefix, Unicode, to_lower,
  ℕ, ◌-◌, ◌/◌, ◌%◌, ◌⊎◌, inl, inr, Bool, true, false, ◌||◌, Option, none, some, List, [], ◌∷◌, ◌++◌,
  if◌then◌else◌,
}
use malert.Domain.{AlertCard}
use malert.Permanent.{GoError, error_text}
use malert.Queue.Job.{format_int}
use malert.Manager.App.{after}
use malert.State.Interface.{Store}
use malert.State.Memory.{
  StoreError, not_found, conflict, other_error, Result, ok, err, rule_alert_prefix,
}
use malert.Engine.Run.{step}

pub data KvError : Type 0 where
  key_not_found key_exists no_keys_found : KvError
  kv_other : Text → KvError

-- A message that refreshes a tick: its subject, its payload and its header Nats-TTL.
pub record TickMessage : Type 0 where
  pub subject : Text
  pub payload : Text
  pub ttl : Option Text

pub record KvEntry : Type 0 where
  pub value : Text
  pub revision : ℕ

-- The calls of the JetStream context and of the two buckets, on the state N of the server.
pub record NatsKv (N : Type 0) : Type 0 where
  pub publish_msg : N → TickMessage → N × Option KvError
  pub tick_get : N → Text → N × (KvError ⊎ KvEntry)
  pub tick_delete : N → Text → N × Option KvError
  pub data_get : N → Text → N × (KvError ⊎ KvEntry)
  pub data_create : N → Text → Text → N × (KvError ⊎ ℕ)
  pub data_put : N → Text → Text → N × (KvError ⊎ ℕ)
  pub data_update : N → Text → Text → ℕ → N × (KvError ⊎ ℕ)
  pub data_delete : N → Text → N × Option KvError
  pub data_keys : N → N × (KvError ⊎ List Text)
  -- `err.Error()`.
  pub kv_error_text : KvError → Text

-- json.Marshal and json.Unmarshal of a card.
pub record CardCodec : Type 0 where
  pub marshal_card : AlertCard → GoError ⊎ Text
  pub unmarshal_card : Text → GoError ⊎ AlertCard

-- `strings.Contains`.
unfoldable pub contains : Text → Text → Bool
unfolding has_prefix
contains [] part = has_prefix [] part
contains (c ∷ s) part = let later = contains s part in has_prefix (c ∷ s) part || later

-- Duration.Milliseconds: the quotient by a million, towards zero.
unfoldable pub milliseconds_of : Duration → Int64
milliseconds_of d =
    if ltb d int64_half then d / 1000000 else (int64_mod - (int64_mod - d) / 1000000) % int64_mod

abbrev pub wrapped_text : Text → Text → StoreError
wrapped_text step t = other_error (step ++ t)

module _ {N : Type 0} (kv : NatsKv N) (u : Unicode) where
  -- `isNATSCardConflict`; errors.Is finds ErrKeyExists.
  unfoldable pub is_nats_card_conflict : KvError → Bool
  unfolding contains to_lower
  is_nats_card_conflict key_exists = true
  is_nats_card_conflict key_not_found =
      contains (to_lower u (kv.kv_error_text key_not_found)) (codes "wrong last sequence")
  is_nats_card_conflict no_keys_found =
      contains (to_lower u (kv.kv_error_text no_keys_found)) (codes "wrong last sequence")
  is_nats_card_conflict (kv_other t) =
      contains (to_lower u (kv.kv_error_text (kv_other t))) (codes "wrong last sequence")

module _ {N : Type 0} (kv : NatsKv N) (codec : CardCodec) (u : Unicode) where
  -- What a write of `writeCard` returns.
  unfoldable pub write_result : Text → N × (KvError ⊎ ℕ) → N × Result ℕ
  unfolding is_nats_card_conflict
  write_result op (n, inr revision) = (n, ok revision)
  write_result op (n, inl e) = (
    n,
    if is_nats_card_conflict kv u e
        then err conflict
        else err (wrapped_text (op ++ codes " card: ") (kv.kv_error_text e)),
  )

  -- The write of an encoded card.
  unfoldable pub write_encoded :
      N → Text → (Text → N × (KvError ⊎ ℕ)) → GoError ⊎ Text → N × Result ℕ
  unfolding write_result
  write_encoded n op write (inl e) = (n, err (wrapped_text (codes "encode card: ") (error_text e)))
  write_encoded n op write (inr body) = write_result op (write body)

  -- `writeCard`.
  unfoldable pub write_nats_card : N → AlertCard → Text → (Text → N × (KvError ⊎ ℕ)) → N × Result ℕ
  unfolding write_encoded
  write_nats_card n card op write = write_encoded n op write (codec.marshal_card card)

  -- `CreateCard`.
  unfoldable pub nats_create_card : N → Text → AlertCard → N × Result ℕ
  unfolding write_nats_card
  nats_create_card n id card = write_nats_card n card (codes "create") (kv.data_create n id)

  -- `PutCard`.
  unfoldable pub nats_put_card : N → Text → AlertCard → N × Result ℕ
  unfolding write_nats_card
  nats_put_card n id card = write_nats_card n card (codes "put") (kv.data_put n id)

  -- `UpdateCard`.
  unfoldable pub nats_update_card : N → Text → ℕ → AlertCard → N × Result ℕ
  unfolding write_nats_card
  nats_update_card n id expected card =
      write_nats_card n card (codes "update") (λ body. kv.data_update n id body expected)

  -- The card of an entry.
  unfoldable pub decoded_card : ℕ → GoError ⊎ AlertCard → Result (AlertCard × ℕ)
  decoded_card revision (inl e) = err (wrapped_text (codes "decode card: ") (error_text e))
  decoded_card revision (inr card) = ok (card, revision)

  -- What a read of `GetCard` returns.
  unfoldable pub read_result : N × (KvError ⊎ KvEntry) → N × Result (AlertCard × ℕ)
  unfolding decoded_card
  read_result (n, inl key_not_found) = (n, err not_found)
  read_result (n, inl key_exists) =
      (n, err (wrapped_text (codes "get card: ") (kv.kv_error_text key_exists)))
  read_result (n, inl no_keys_found) =
      (n, err (wrapped_text (codes "get card: ") (kv.kv_error_text no_keys_found)))
  read_result (n, inl (kv_other t)) =
      (n, err (wrapped_text (codes "get card: ") (kv.kv_error_text (kv_other t))))
  read_result (n, inr entry) = (n, decoded_card entry.revision (codec.unmarshal_card entry.value))

  -- `GetCard`.
  unfoldable pub nats_get_card : N → Text → N × Result (AlertCard × ℕ)
  unfolding read_result
  nats_get_card n id = read_result (kv.data_get n id)

  -- `HasTick`.
  unfoldable pub tick_result : N × (KvError ⊎ KvEntry) → N × Result Bool
  tick_result (n, inl key_not_found) = (n, ok false)
  tick_result (n, inl key_exists) = (n, err (other_error (kv.kv_error_text key_exists)))
  tick_result (n, inl no_keys_found) = (n, err (other_error (kv.kv_error_text no_keys_found)))
  tick_result (n, inl (kv_other t)) = (n, err (other_error (kv.kv_error_text (kv_other t))))
  tick_result (n, inr entry) = (n, ok true)

  unfoldable pub nats_has_tick : N → Text → N × Result Bool
  unfolding tick_result
  nats_has_tick n id = tick_result (kv.tick_get n id)

  unfoldable pub publish_result : N × Option KvError → N × Result (Unit {0})
  publish_result (n, none) = (n, ok tt)
  publish_result (n, some e) = (n, err (wrapped_text (codes "publish tick: ") (kv.kv_error_text e)))

  -- `RefreshTick`; `prefix` is the field `tickSubjectPrefix`.
  unfoldable pub nats_refresh_tick : Text → N → Text → Duration → N × Result (Unit {0})
  unfolding publish_result format_int milliseconds_of
  nats_refresh_tick prefix n id ttl = publish_result (
      kv.publish_msg n (record {
        subject = prefix ++ id;
        payload = codes "1";
        ttl = if ltb_i64 0 ttl then some (format_int (milliseconds_of ttl) ++ codes "ms") else none;
      }))

  -- The result of a deletion: a missing key is no error.
  unfoldable pub delete_result : Text → Option KvError → Result (Unit {0})
  delete_result step none = ok tt
  delete_result step (some key_not_found) = ok tt
  delete_result step (some key_exists) = err (wrapped_text step (kv.kv_error_text key_exists))
  delete_result step (some no_keys_found) = err (wrapped_text step (kv.kv_error_text no_keys_found))
  delete_result step (some (kv_other t)) = err (wrapped_text step (kv.kv_error_text (kv_other t)))

  -- The second half of `DeleteCard`.
  unfoldable pub delete_tick_after : Text → N → Result (Unit {0}) → N × Result (Unit {0})
  unfolding delete_result
  delete_tick_after id n (err e) = (n, err e)
  delete_tick_after id n (ok none_left) =
      let (after, failure) = kv.tick_delete n id in
      (after, delete_result (codes "delete tick: ") failure)

  -- `DeleteCard`.
  unfoldable pub nats_delete_card : N → Text → N × Result (Unit {0})
  unfolding delete_result delete_tick_after
  nats_delete_card n id =
      let (after, failure) = kv.data_delete n id in
      delete_tick_after id after (delete_result (codes "delete card: ") failure)

  -- The loop of `ListAlertIDsByRule`.
  unfoldable pub keys_with_prefix : Text → List Text → List Text
  unfolding has_prefix
  keys_with_prefix prefix [] = []
  keys_with_prefix prefix (key ∷ keys) =
      let rest = keys_with_prefix prefix keys in if has_prefix key prefix then key ∷ rest else rest

  unfoldable pub keys_result : Text → N × (KvError ⊎ List Text) → N × Result (List Text)
  unfolding keys_with_prefix rule_alert_prefix
  keys_result rule (n, inl no_keys_found) = (n, ok [])
  keys_result rule (n, inl key_not_found) =
      (n, err (wrapped_text (codes "list keys: ") (kv.kv_error_text key_not_found)))
  keys_result rule (n, inl key_exists) =
      (n, err (wrapped_text (codes "list keys: ") (kv.kv_error_text key_exists)))
  keys_result rule (n, inl (kv_other t)) =
      (n, err (wrapped_text (codes "list keys: ") (kv.kv_error_text (kv_other t))))
  keys_result rule (n, inr keys) = (n, ok (keys_with_prefix (rule_alert_prefix u rule) keys))

  -- `ListAlertIDsByRule`.
  unfoldable pub nats_list_alert_ids_by_rule : N → Text → N × Result (List Text)
  unfolding keys_result
  nats_list_alert_ids_by_rule n rule = keys_result rule (kv.data_keys n)

  -- `NATSStore` as a `Store`, with its field `tickSubjectPrefix`.
  abbrev pub nats_store : Text → Store
  nats_store prefix = record {
    Backend = N;
    refresh_tick = λ n id last_seen ttl. nats_refresh_tick prefix n id ttl;
    has_tick = nats_has_tick;
    get_card = nats_get_card;
    create_card = nats_create_card;
    put_card = nats_put_card;
    update_card = nats_update_card;
    delete_card = nats_delete_card;
    list_alert_ids_by_rule = nats_list_alert_ids_by_rule;
  }
