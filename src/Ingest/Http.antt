-- ===== src/Ingest/Http.antt =====
-- internal/ingest/http.go: the endpoint that takes events. A response is its status code.
use mathlib.Core.List.{reverse}
use malert.Permanent.{GoError}
use malert.Base.{
  Int64, Text, codes, text_eq, trim_space, has_prefix, ℕ, ◌⊎◌, inl, inr, Bool, not, ◌||◌, Option,
  none, some, List, if◌then◌else◌,
}
use malert.Ingest.Codec.{
  JsonDecoder, decode_single_event, decode_batch_events, EventSink, push_all_events,
}
use malert.Domain.Event.{Event}

pub record IngestRequest : Type 0 where
  pub method : Text
  pub path : Text
  pub body : Text

-- strings.HasSuffix.
unfoldable pub has_suffix : Text → Text → Bool
unfolding has_prefix
has_suffix s suffix = has_prefix (reverse s) (reverse suffix)

-- `isBatchPath`; the path "/batch" ends with itself.
unfoldable pub is_batch_path : Text → Bool
unfolding has_suffix
is_batch_path path =
    let trimmed = trim_space path in
    text_eq trimmed (codes "/batch") || has_suffix trimmed (codes "/batch")

abbrev pub method_not_allowed : ℕ
method_not_allowed = 405

abbrev pub bad_request : ℕ
bad_request = 400

abbrev pub service_unavailable : ℕ
service_unavailable = 503

abbrev pub accepted : ℕ
accepted = 202

-- `request.Method == http.MethodPost`.
unfoldable pub is_post : IngestRequest → Bool
unfolding text_eq
is_post request = text_eq request.method (codes "POST")

-- The status after a push.
unfoldable pub push_status : {S : Type 0} → S × Option GoError → S × ℕ
push_status (s, none) = (s, accepted)
push_status (s, some e) = (s, service_unavailable)

module _ {S D : Type 0} (sink : EventSink S) (json : JsonDecoder D) where
  -- What follows the decoding of a batch.
  unfoldable pub serve_batch : S → GoError ⊎ List Event → S × ℕ
  unfolding push_all_events push_status
  serve_batch s (inl e) = (s, bad_request)
  serve_batch s (inr events) = push_status (push_all_events sink s events)

  -- What follows the decoding of one event.
  unfoldable pub serve_event : S → GoError ⊎ Event → S × ℕ
  unfolding push_status
  serve_event s (inl e) = (s, bad_request)
  serve_event s (inr event) = push_status (sink.push s event)

  -- `ServeHTTP`; `limited_body` is a decoder on the http.MaxBytesReader of a body, with the most
  -- bytes that it reads.
  unfoldable pub serve_http : (Text → Int64 → D) → Int64 → S → IngestRequest → S × ℕ
  unfolding is_post is_batch_path decode_batch_events decode_single_event serve_batch serve_event
  serve_http limited_body max_body_size s request =
      if not (is_post request)
      then (s, method_not_allowed)
      else if is_batch_path request.path
      then serve_batch s (decode_batch_events json (limited_body request.body max_body_size))
      else serve_event s (decode_single_event json (limited_body request.body max_body_size))
