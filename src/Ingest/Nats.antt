-- ===== src/Ingest/Nats.antt =====
-- internal/ingest/nats.go: the callback of the subscription. An acknowledgement that fails is only
-- logged, so a message ends with the disposition that is asked for.
use malert.Permanent.{GoError}
use malert.Queue.Worker.{Disposition, acked, nacked, nacked_with_delay}
use malert.Base.{Duration, ltb_i64, Text, ◌⊎◌, inl, inr, Option, none, some, List, if◌then◌else◌}
use malert.Notify.Retry.{milliseconds}
use malert.Config.Service.{NatsIngestConfig}
use malert.Ingest.Codec.{
  JsonDecoder, DecodeScratch, release_decode_scratch, decode_event_payload_into, EventSink,
  push_all_events,
}
use malert.Domain.Event.{Event}

-- The state around the callback: the sink's, and the scratch that the pool gives next.
pub record IngestState (S : Type 0) : Type 0 where
  pub outside : S
  pub pooled : DecodeScratch

-- `nackMessage` of a message that is there.
unfoldable pub nack_message : Duration → Disposition
nack_message delay = if ltb_i64 0 delay then nacked_with_delay delay else nacked

-- The disposition after a push.
unfoldable pub push_disposition : Option GoError → Duration → Disposition
unfolding nack_message
push_disposition none delay = acked
push_disposition (some e) delay = nack_message delay

module _ {S D : Type 0} (sink : EventSink S) (json : JsonDecoder D) where
  -- What follows the decoding.
  unfoldable pub settle_events : S → Duration → GoError ⊎ List Event → S × Disposition
  unfolding push_all_events push_disposition
  settle_events s delay (inl e) = (s, acked)
  settle_events s delay (inr events) =
      let (t, failure) = push_all_events sink s events in (t, push_disposition failure delay)

  -- The callback of `NewNATSSubscriber`.
  unfoldable pub consume_message :
      NatsIngestConfig → IngestState S → Text → IngestState S × Disposition
  unfolding decode_event_payload_into settle_events release_decode_scratch milliseconds
  consume_message cfg state body =
      let (scratch, decoded) = decode_event_payload_into json body state.pooled in
      let (t, disposition) = settle_events state.outside (milliseconds cfg.nack_delay_ms) decoded in
      (record { outside = t; pooled = release_decode_scratch scratch }, disposition)
