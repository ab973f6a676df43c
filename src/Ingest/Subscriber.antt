-- ===== src/Ingest/Subscriber.antt =====
-- internal/ingest/nats.go: the subscriptions of the ingest workers. The NATS client is a parameter.
use malert.Permanent.{GoError, wrapped}
use malert.Base.{
  Duration, seconds, Int64, leb_i64, Text, codes, ℕ, zero, suc, ◌⊎◌, inl, inr, Option, none, some,
  List, [], ◌∷◌, ◌++◌, if◌then◌else◌,
}
use malert.Config.Service.{NatsIngestConfig}
use malert.Engine.Run.{step}
use malert.Manager.App.{after}

-- The options of a subscription.
pub record SubscribeOptions : Type 0 where
  pub subject : Text
  pub deliver_group : Text
  pub stream : Text
  pub durable : Text
  pub ack_wait : Duration
  pub max_deliver : Int64
  pub max_ack_pending : Int64

-- The calls of the client, with the state N of the world outside; C and B are connections and
-- subscriptions. `subscribe` has the callback bound.
pub record NatsClient (N C B : Type 0) : Type 0 where
  pub connect : N → Text → N × (GoError ⊎ C)
  pub jet_stream : N → C → N × Option GoError
  pub subscribe : N → C → SubscribeOptions → N × (GoError ⊎ B)
  pub drain : N → B → N × Option GoError
  pub close : N → C → N

-- `NATSSubscriber`.
pub record NatsSubscriber (C B : Type 0) : Type 0 where
  pub conns : List C
  pub subs : List B

-- strings.Join(cfg.URL, ",").
unfoldable pub join_urls : List Text → Text
join_urls [] = []
join_urls (a ∷ []) = a
join_urls (a ∷ b ∷ rest) = a ++ (b',' ∷ join_urls (b ∷ rest))

-- The options that `NewNATSSubscriber` builds.
unfoldable pub subscribe_options : NatsIngestConfig → SubscribeOptions
unfolding seconds
subscribe_options cfg = record {
  subject = cfg.subject;
  deliver_group = cfg.deliver_group;
  stream = cfg.stream;
  durable = cfg.consumer_name;
  ack_wait = seconds cfg.ack_wait_sec;
  max_deliver = cfg.max_deliver;
  max_ack_pending = cfg.max_ack_pending;
}

abbrev pub first_failure : Option GoError → Option GoError → Option GoError
first_failure none later = later
first_failure (some e) later = some e

module _ {N C B : Type 0} (client : NatsClient N C B) where
  -- The drains of `Close`, which give the first error.
  unfoldable pub drain_all : N → List B → Option GoError → N × Option GoError
  drain_all n [] first = (n, first)
  drain_all n (sub ∷ subs) first =
      let (after, failure) = client.drain n sub in
      drain_all after subs (first_failure first failure)

  unfoldable pub close_all : N → List C → N
  close_all n [] = n
  close_all n (conn ∷ conns) = close_all (client.close n conn) conns

  -- `Close`.
  unfoldable pub close_subscriber : N → NatsSubscriber C B → N × Option GoError
  unfolding drain_all close_all
  close_subscriber n subscriber =
      let (drained, failure) = drain_all n subscriber.subs none in
      (close_all drained subscriber.conns, failure)

  -- A worker that did not start: the connection and the workers before it are closed.
  unfoldable pub abandoned :
      N → List C → NatsSubscriber C B → Text → GoError → N × (GoError ⊎ NatsSubscriber C B)
  unfolding close_all close_subscriber
  abandoned n own subscriber step e =
      ((close_subscriber (close_all n own) subscriber).0, inl (wrapped step e))

  module _ (cfg : NatsIngestConfig) where
    -- The last step of a worker.
    unfoldable pub subscribed :
        C → NatsSubscriber C B → N × (GoError ⊎ B) → N × (GoError ⊎ NatsSubscriber C B)
    unfolding abandoned
    subscribed conn so_far (n, inl e) = abandoned n (conn ∷ []) so_far (codes "queue subscribe ") e
    subscribed conn so_far (n, inr sub) =
        (n, inr (record { conns = so_far.conns ++ (conn ∷ []); subs = so_far.subs ++ (sub ∷ []) }))

    unfoldable pub with_stream :
        C → NatsSubscriber C B → N × Option GoError → N × (GoError ⊎ NatsSubscriber C B)
    unfolding abandoned subscribed subscribe_options
    with_stream conn so_far (n, some e) =
        abandoned n (conn ∷ []) so_far (codes "jetstream init for ingest worker ") e
    with_stream conn so_far (n, none) =
        subscribed conn so_far (client.subscribe n conn (subscribe_options cfg))

    unfoldable pub connected :
        NatsSubscriber C B → N × (GoError ⊎ C) → N × (GoError ⊎ NatsSubscriber C B)
    unfolding abandoned with_stream
    connected so_far (n, inl e) = abandoned n [] so_far (codes "connect nats ingest worker ") e
    connected so_far (n, inr conn) = with_stream conn so_far (client.jet_stream n conn)

    -- The loop over the workers, up to the first error.
    unfoldable pub start_workers :
        ℕ → N × (GoError ⊎ NatsSubscriber C B) → N × (GoError ⊎ NatsSubscriber C B)
    unfolding connected join_urls
    start_workers zero started = started
    start_workers (suc left) (n, inl e) = (n, inl e)
    start_workers (suc left) (n, inr so_far) =
        start_workers left (connected so_far (client.connect n (join_urls cfg.url)))

    -- `NewNATSSubscriber`.
    unfoldable pub new_nats_subscriber : N → N × (GoError ⊎ NatsSubscriber C B)
    unfolding start_workers
    new_nats_subscriber n =
        start_workers (if leb_i64 cfg.workers 0 then 1 else cfg.workers)
          (n, inr (record { conns = []; subs = [] }))
