-- ===== src/Ingest/Accepted.antt =====
-- internal/ingest: what reaches the sink, and what the sender of the events is told.
use malert.Permanent.{GoError}
use malert.Base.{
  Bool-cases, Text, ◌≡◌, refl, ◌≢◌, ◌⊎◌, inl, inr, Option, none, some, List, Int64, true, false,
  Duration, trim_space,
}
use malert.Ingest.Codec.{
  JsonDecoder, decode_single_event, decode_batch_events, EventSink, push_all_events,
  decode_event_payload_into,
}
use malert.Domain.Event.{Event, validate}
use malert.Ingest.Http.{
  IngestRequest, is_batch_path, method_not_allowed, bad_request, service_unavailable, accepted,
  push_status, serve_batch, serve_event, serve_http, is_post,
}
use malert.Queue.Worker.{acked}
use malert.Notify.Retry.{milliseconds}
use malert.Manager.App.{after}
use malert.Config.Service.{NatsIngestConfig}
use malert.Ingest.Nats.{IngestState, nack_message, push_disposition, settle_events, consume_message}
use malert.Ingest.Validated.{
  Validated, decode_single_event-valid, decode_batch_events-Validated, decode_trimmed-Validated,
}

-- How a request or a message with one payload ends: it is not decoded, and the sink is left alone
-- (`Failed`), or what it was decoded to is valid and pushed, and the answer is `good` where that
-- gives no error and `bad` where it does.
abbrev pub Pushed :
    {S A R : Type 0}
    → (A → Type 0)
    → S
    → GoError ⊎ A
    → (A → S × Option GoError)
    → R
    → R
    → R
    → S × R
    → Type 0
Pushed {S} {A} Valid s decoded push_it unread good bad result =
    ((e : GoError) × (decoded ≡ inl e) × (result ≡ (s, unread)))
    ⊎ ((a : A) × (decoded ≡ inr a)
        × Valid a
        × (result.0 ≡ (push_it a).0)
        × ((((push_it a).1 ≡ none) × (result.1 ≡ good))
            ⊎ (((push_it a).1 ≢ none) × (result.1 ≡ bad))))

module _ {S D : Type 0} (sink : EventSink S) (json : JsonDecoder D) where
  push_status-cases :
      (pushed : S × Option GoError)
      → ((push_status pushed).0 ≡ pushed.0)
        × (((pushed.1 ≡ none) × ((push_status pushed).1 ≡ accepted))
            ⊎ ((pushed.1 ≢ none) × ((push_status pushed).1 ≡ service_unavailable)))
  unfolding push_status
  push_status-cases (s, none) = (refl, inl (refl, refl))
  push_status-cases (s, some e) = (refl, inr (λ h. cc, refl))

  serve_batch-Pushed :
      (s : S) (decoded : GoError ⊎ List Event)
      → ((events : List Event) → decoded ≡ inr events → Validated events)
      → Pushed Validated s decoded
          (push_all_events sink s)
          bad_request
          accepted
          service_unavailable
          (serve_batch sink json s decoded)
  unfolding serve_batch
  serve_batch-Pushed s (inl e) valid = inl (e, refl, refl)
  serve_batch-Pushed s (inr events) valid =
      let p = push_status-cases (push_all_events sink s events) in
      inr (events, refl, valid events refl, p.0, p.1)

  serve_event-Pushed :
      (s : S) (decoded : GoError ⊎ Event)
      → ((event : Event) → decoded ≡ inr event → validate event ≡ none)
      → Pushed
          (λ e. validate e ≡ none)
          s
          decoded
          (sink.push s)
          bad_request
          accepted
          service_unavailable
          (serve_event sink json s decoded)
  unfolding serve_event
  serve_event-Pushed s (inl e) valid = inl (e, refl, refl)
  serve_event-Pushed s (inr event) valid =
      let p = push_status-cases (sink.push s event) in inr (event, refl, valid event refl, p.0, p.1)

  -- A request that is no POST gets 405 and leaves the sink alone. Another request gets 400 and leaves
  -- the sink alone where its body is not decoded, as a batch on a batch path and as one event
  -- elsewhere; where it is, all its events are valid, there is at least one, they are pushed, and the
  -- status is 202 if the push gave no error and 503 if it did.
  pub serve_http-Pushed :
      (limited_body : Text → Int64 → D) (limit : Int64) (s : S) (request : IngestRequest)
      → (let result = serve_http sink json limited_body limit s request in
          let d = limited_body request.body limit in
          ((is_post request ≡ false) × (result ≡ (s, method_not_allowed)))
          ⊎ ((is_post request ≡ true)
              × (((is_batch_path request.path ≡ true)
                    × Pushed Validated s
                        (decode_batch_events json d)
                        (push_all_events sink s)
                        bad_request
                        accepted
                        service_unavailable
                        result)
                  ⊎ ((is_batch_path request.path ≡ false)
                      × Pushed
                          (λ e. validate e ≡ none)
                          s
                          (decode_single_event json d)
                          (sink.push s)
                          bad_request
                          accepted
                          service_unavailable
                          result))))
  unfolding serve_http
  serve_http-Pushed limited_body limit s request = elim (Bool-cases (is_post request)) [
    | inl post ↦ elim (Bool-cases (is_batch_path request.path)) [
      | inl batch ↦
          rw (post, batch)
            (inr (refl, inl (refl, serve_batch-Pushed s _ (decode_batch_events-Validated json _))))
      | inr single ↦
          rw (post, single)
            (inr (refl, inr (refl, serve_event-Pushed s _ (decode_single_event-valid json _))))
    ]
    | inr other ↦ rw other (inl (refl, refl))
  ]

  push_disposition-cases :
      (failure : Option GoError) (delay : Duration)
      → ((failure ≡ none) × (push_disposition failure delay ≡ acked))
        ⊎ ((failure ≢ none) × (push_disposition failure delay ≡ nack_message delay))
  unfolding push_disposition
  push_disposition-cases none delay = inl (refl, refl)
  push_disposition-cases (some e) delay = inr (λ h. cc, refl)

  settle_events-Pushed :
      (s : S) (delay : Duration) (decoded : GoError ⊎ List Event)
      → ((events : List Event) → decoded ≡ inr events → Validated events)
      → Pushed Validated s decoded
          (push_all_events sink s)
          acked
          acked
          (nack_message delay)
          (settle_events sink json s delay decoded)
  unfolding settle_events
  settle_events-Pushed s delay (inl e) valid = inl (e, refl, refl)
  settle_events-Pushed s delay (inr events) valid = inr (
    events,
    refl,
    valid events refl,
    refl,
    push_disposition-cases (push_all_events sink s events).1 delay,
  )

  -- A message whose body is not decoded is acknowledged and leaves the sink alone. Any other has at
  -- least one event, all of them valid, which are pushed; it is acknowledged if the push gave no
  -- error, and negatively acknowledged, with the delay of the configuration if that is positive, if
  -- it did.
  pub consume_message-Pushed :
      (cfg : NatsIngestConfig) (state : IngestState S) (body : Text)
      → (let (after, disposition) = consume_message sink json cfg state body in
          Pushed Validated state.outside
            (decode_event_payload_into json body state.pooled).1
            (push_all_events sink state.outside)
            acked
            acked
            (nack_message (milliseconds cfg.nack_delay_ms))
            (after.outside, disposition))
  unfolding consume_message decode_event_payload_into
  consume_message-Pushed cfg state body =
      settle_events-Pushed state.outside _ _
        (decode_trimmed-Validated json (trim_space body) state.pooled)
