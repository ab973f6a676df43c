-- ===== src/Tests/IngestRuns.antt =====
-- The theorems about ingest at concrete inputs.
use malert.Permanent.{plain}
use malert.Queue.Worker.{acked}
use malert.Tests.Data.{load_event}
use malert.Base.{
  ltb, codes, ℕ, ◌+◌, ◌≡◌, refl, ◌⊎◌, inr, true, false, none, some, [], ◌∷◌, if◌then◌else◌, leb_i64,
  ltb_i64, is_space, trim_space, is_empty,
}
use malert.Notify.Retry.{milliseconds}
use malert.Config.Service.{NatsIngestConfig}
use malert.Ingest.Nats.{IngestState, nack_message, consume_message}
use malert.Ingest.Http.{
  IngestRequest, is_batch_path, method_not_allowed, bad_request, service_unavailable, accepted,
  is_post, serve_http,
}
use malert.Ingest.Codec.{
  at_eof, JsonDecoder, new_scratch, decode_single_event, decode_batch_events,
  decode_event_payload_into, EventSink, push_all_events,
}
use malert.Ingest.Accepted.{Pushed, serve_http-Pushed, consume_message-Pushed}
use malert.Domain.Event.{validate, validate_value}
use malert.Ingest.Validated.{Validated}

-- A decoder that finds one event in every text, and then its end; its position is the number of
-- values that it read.
abbrev sample_decoder : JsonDecoder ℕ
sample_decoder = record {
  new_decoder = λ text. 0;
  decode_event = λ d. (d + 1, inr load_event);
  decode_events = λ d array. (d + 1, array, inr (record { count = 1; array = load_event ∷ [] }));
  decode_raw = λ d. at_eof;
}

-- A sink that counts events and fails from the third one on.
abbrev counting_sink : EventSink ℕ
counting_sink = record {
  push = λ n e. (n + 1, if ltb n 2 then none else some (plain (codes "closed")));
  push_batch = none;
}

abbrev batch_request : IngestRequest
batch_request = record { method = codes "POST"; path = codes "/ingest/batch"; body = codes "[{}]" }

serve_http-Pushed_example :
    (let result = serve_http counting_sink sample_decoder (λ body limit. 0) 1024 0 batch_request in
      ((is_post batch_request ≡ false) × (result ≡ (0, method_not_allowed)))
      ⊎ ((is_post batch_request ≡ true)
          × (((is_batch_path batch_request.path ≡ true)
                × Pushed Validated 0
                    (decode_batch_events sample_decoder 0)
                    (push_all_events counting_sink 0)
                    bad_request
                    accepted
                    service_unavailable
                    result)
              ⊎ ((is_batch_path batch_request.path ≡ false)
                  × Pushed
                      (λ e. validate e ≡ none)
                      0
                      (decode_single_event sample_decoder 0)
                      (counting_sink.push 0)
                      bad_request
                      accepted
                      service_unavailable
                      result))))
serve_http-Pushed_example =
    serve_http-Pushed counting_sink sample_decoder (λ body limit. 0) 1024 0 batch_request

-- The batch is accepted.
batch_request_run :
    serve_http counting_sink sample_decoder (λ body limit. 0) 1024 0 batch_request ≡ (1, 202)
unfolding serve_http trim_space is_space leb_i64 is_empty ltb_i64 validate_value
batch_request_run = refl

abbrev sample_ingest : NatsIngestConfig
sample_ingest = record {
  enabled = true;
  url = codes "nats://localhost:4222" ∷ [];
  subject = codes "events";
  stream = codes "EVENTS";
  consumer_name = codes "ingest";
  deliver_group = codes "workers";
  workers = 2;
  ack_wait_sec = 30;
  nack_delay_ms = 250;
  max_deliver = 5;
  max_ack_pending = 100;
}

abbrev sample_ingest_state : IngestState ℕ
sample_ingest_state = record { outside = 5; pooled = new_scratch }

consume_message-Pushed_example :
    (let (later, disposition) =
        consume_message counting_sink sample_decoder sample_ingest sample_ingest_state
          (codes "{}") in
      Pushed Validated 5
        (decode_event_payload_into sample_decoder (codes "{}") new_scratch).1
        (push_all_events counting_sink 5)
        acked
        acked
        (nack_message (milliseconds 250))
        (later.outside, disposition))
consume_message-Pushed_example =
    consume_message-Pushed counting_sink sample_decoder sample_ingest sample_ingest_state
      (codes "{}")
