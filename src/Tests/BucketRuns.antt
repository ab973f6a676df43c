-- ===== src/Tests/BucketRuns.antt =====
-- The theorems about the NATS store at concrete inputs.
use malert.Tests.Worlds.{plain_unicode}
use malert.Tests.StoreRuns.{sample_card}
use malert.Tests.Data.{alert_id}
use malert.Base.{
  ◌==◌, Assoc, lookup, insert, delete, lookup-insert_self, lookup-insert_ne, Text, codes, ℕ, suc,
  ◌≡◌, refl, ◌≢◌, ◌⊎◌, inl, inr, Option, none, some, [], ◌++◌, if◌then◌else◌, true, false, arith,
}
use malert.State.Nats.{
  KvError, key_not_found, key_exists, no_keys_found, kv_other, KvEntry, NatsKv, CardCodec,
}
use malert.State.Deletions.{
  marker_acked, marker_nacked, tick_subject_prefix, consume_marker, consume_marker-tick,
  MarkerMessage,
}
use malert.State.Buckets.{Written, KvLaws, CodecLaws, Admits, Loses}
use malert.State.Laws.{create}
use malert.State.Registers.{nats_perform, TookPlace, Lost, nats_perform-register}
use malert.Permanent.{GoError}

abbrev next_of : Option KvEntry → ℕ
next_of none = 1
next_of (some entry) = suc entry.revision

-- A write to a bucket that is an association list.
abbrev bucket_put : Assoc KvEntry → Text → Text → Assoc KvEntry × (KvError ⊎ ℕ)
bucket_put n id body =
    let revision = next_of (lookup id n) in
    (insert id (record { value = body; revision = revision }) n, inr revision)

abbrev wrong_sequence : KvError
wrong_sequence = kv_other (codes "nats: wrong last sequence: 1")

abbrev bucket_create : Assoc KvEntry → Text → Text → Option KvEntry → Assoc KvEntry × (KvError ⊎ ℕ)
bucket_create n id body none = bucket_put n id body
bucket_create n id body (some entry) = (n, inl key_exists)

abbrev bucket_update :
    Assoc KvEntry → Text → Text → ℕ → Option KvEntry → Assoc KvEntry × (KvError ⊎ ℕ)
bucket_update n id body expected none = (n, inl wrong_sequence)
bucket_update n id body expected (some entry) =
    if entry.revision == expected then bucket_put n id body else (n, inl wrong_sequence)

abbrev bucket_get : Option KvEntry → KvError ⊎ KvEntry
bucket_get none = inl key_not_found
bucket_get (some entry) = inr entry

abbrev sample_kv : NatsKv (Assoc KvEntry)
sample_kv = record {
  publish_msg = λ n m. (n, none);
  tick_get = λ n id. (n, inl key_not_found);
  tick_delete = λ n id. (n, none);
  data_get = λ n id. (n, bucket_get (lookup id n));
  data_create = λ n id body. bucket_create n id body (lookup id n);
  data_put = bucket_put;
  data_update = λ n id body expected. bucket_update n id body expected (lookup id n);
  data_delete = λ n id. (delete id n, none);
  data_keys = λ n. (n, inl no_keys_found);
  kv_error_text = λ e. codes "nats: wrong last sequence: 1";
}

bucket_put-Written :
    (n : Assoc KvEntry) (id body : Text)
    → Written (λ m j. lookup j m) id body n (bucket_put n id body)
bucket_put-Written n id body = (
  next_of (lookup id n),
  refl,
  lookup-insert_self id (record { value = body; revision = next_of (lookup id n) }) n,
  λ j ne. lookup-insert_ne id j (record { value = body; revision = next_of (lookup id n) }) n ne,
)

kv_laws : KvLaws sample_kv
kv_laws = record {
  held = λ n id. lookup id n;
  reads = λ n id entry e. rw e refl;
  misses = λ n id e. rw e refl;
  create_absent = λ n id body e. rw e (bucket_put-Written n id body);
  create_present = λ n id body entry e. rw e (key_exists, refl, refl, λ j. refl);
  puts = bucket_put-Written;
  update_same = λ n id body entry e.
      let same : (entry.revision == entry.revision) ≡ true = ground arith in
      rw (e, same) (bucket_put-Written n id body);
  update_other = λ n id body entry expected e ne.
      let other : (entry.revision == expected) ≡ false = ground (arith, ne) in
      rw (e, other)
        (
          wrong_sequence,
          refl,
          (codes "nats: wrong last sequence: 1", codes "nats: ", codes ": 1", refl, refl),
          λ j. refl,
        );
}

abbrev sample_codec : CardCodec
sample_codec = record {
  marshal_card = λ card. inr (codes "card");
  unmarshal_card = λ body. inr sample_card;
}

abbrev sample_codec_laws : CodecLaws sample_codec sample_card
sample_codec_laws = record { body = codes "card"; marshals = refl; unmarshals = refl }

-- A callback that resolves every alert and counts.
abbrev counting_handler : ℕ → Text → Text → ℕ × Option GoError
counting_handler n id reason = (suc n, none)

abbrev tick_marker : MarkerMessage
tick_marker = record {
  subject = tick_subject_prefix (codes "tick") ++ alert_id;
  marker_reason = codes "MaxAge";
  body = [];
}

consume_marker-tick_example :
    (let answer = consume_marker (some counting_handler) (codes "tick") 3 tick_marker in
      (tick_marker.body ≡ []
        → (answer.0 ≡ 4)
          × ((((counting_handler 3 alert_id (codes "MaxAge")).1 ≡ none) × (answer.1 ≡ marker_acked))
              ⊎ (((counting_handler 3 alert_id (codes "MaxAge")).1 ≢ none)
                  × (answer.1 ≡ marker_nacked))))
      × (tick_marker.body ≢ [] → answer ≡ (3, marker_acked)))
consume_marker-tick_example =
    consume_marker-tick counting_handler (codes "tick") 3 alert_id (codes "MaxAge") [] (λ h. cc)

abbrev empty_bucket : Assoc KvEntry
empty_bucket = []

nats_perform-register_example :
    (Admits (kv_laws.held empty_bucket alert_id) (create sample_card)
      → TookPlace sample_kv sample_codec plain_unicode empty_bucket alert_id sample_card (
          nats_perform sample_kv sample_codec plain_unicode empty_bucket alert_id
            (create sample_card)))
    × (Loses (kv_laws.held empty_bucket alert_id) (create sample_card)
        → Lost sample_kv sample_codec plain_unicode empty_bucket (
            nats_perform sample_kv sample_codec plain_unicode empty_bucket alert_id
              (create sample_card)))
nats_perform-register_example =
    nats_perform-register sample_kv sample_codec plain_unicode kv_laws empty_bucket alert_id
      (create sample_card) sample_codec_laws
