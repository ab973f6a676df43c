-- ===== src/Ingest/Codec.antt =====
-- internal/ingest/codec.go and the decoding in internal/domain/event.go. encoding/json is a parameter.
-- A slice of the pooled scratch is its length and the array behind it, up to the capacity.
use malert.Permanent.{GoError, plain, wrapped}
use malert.Queue.Job.{format_int}
use malert.Base.{
  ltb, ◌==◌, Text, codes, trim_space, ℕ, zero, suc, ◌⊎◌, inl, inr, Option, none, some, List, [],
  ◌∷◌, ◌++◌, if◌then◌else◌, length,
}
use malert.Domain.Event.{
  Event, EventError, bad_dt, bad_type, bad_var, bad_tags, bad_agg_cnt, bad_event_agg_cnt,
  bad_event_win, bad_agg_win, n_required, only_n, s_required, only_s, b_required, only_b,
  bad_value_type, validate,
}

-- What a decoder finds after a value: io.EOF, another error, or another value.
pub data Trailing : Type 0 where
  at_eof another_value : Trailing
  broken : GoError → Trailing

-- A decoded batch: how many of the events of the array it has. The array that was given to the
-- decoder is changed in place, and is replaced where it is too short.
pub record DecodedBatch : Type 0 where
  pub count : ℕ
  pub array : List Event

-- json.Decoder with its position D. Decoding into a slice of events gets the elements that the array
-- holds, and leaves them changed, after an error too.
pub record JsonDecoder (D : Type 0) : Type 0 where
  pub new_decoder : Text → D
  pub decode_event : D → D × (GoError ⊎ Event)
  pub decode_events : D → List Event → D × List Event × (GoError ⊎ DecodedBatch)
  pub decode_raw : D → Trailing

-- `decodeScratch`.
pub record DecodeScratch : Type 0 where
  pub length : ℕ
  pub array : List Event

-- domain.Event{}.
abbrev pub zero_event : Event
zero_event = record {
  dt = 0;
  kind = [];
  tags = [];
  var = [];
  value = record { kind = []; n = none; s = none; b = none };
  agg_cnt = 0;
  win = 0;
}

abbrev pub max_pooled_batch_capacity : ℕ
max_pooled_batch_capacity = 4096

abbrev pub repeat_zero : ℕ → List Event
repeat_zero zero = []
repeat_zero (suc n) = zero_event ∷ repeat_zero n

-- The function `New` of the pool.
abbrev pub new_scratch : DecodeScratch
new_scratch = record { length = 0; array = repeat_zero 16 }

-- The first n elements.
unfoldable pub first_of : ℕ → List Event → List Event
first_of zero events = []
first_of (suc n) [] = []
first_of (suc n) (e ∷ events) = e ∷ first_of n events

-- The loop of `releaseDecodeScratch`, which clears the first n elements.
unfoldable pub clear_first : ℕ → List Event → List Event
clear_first zero events = events
clear_first (suc n) [] = []
clear_first (suc n) (e ∷ events) = zero_event ∷ clear_first n events

-- `releaseDecodeScratch`, and what it puts back into the pool.
unfoldable pub release_decode_scratch : DecodeScratch → DecodeScratch
unfolding clear_first
release_decode_scratch scratch =
    let cleared = clear_first scratch.length scratch.array in
    if ltb max_pooled_batch_capacity (length cleared)
    then new_scratch
    else record { length = 0; array = cleared }

abbrev value_error : Text → GoError
value_error t = wrapped (codes "value: ") (plain t)

-- The texts of the errors of `Validate`, without the quoted type.
unfoldable pub event_error : EventError → GoError
event_error bad_dt = plain (codes "dt must be >0")
event_error bad_type = plain (codes "unsupported type ")
event_error bad_var = plain (codes "var is required")
event_error bad_tags = plain (codes "tags are required")
event_error bad_agg_cnt = plain (codes "agg_cnt must be >=1")
event_error bad_event_agg_cnt = plain (codes "agg_cnt must be 1 for type=event")
event_error bad_event_win = plain (codes "win must be 0 for type=event")
event_error bad_agg_win = plain (codes "win must be >0 for type=agg")
event_error n_required = value_error (codes "n value is required for t=n")
event_error only_n = value_error (codes "only n must be set for t=n")
event_error s_required = value_error (codes "s value is required for t=s")
event_error only_s = value_error (codes "only s must be set for t=s")
event_error b_required = value_error (codes "b value is required for t=b")
event_error only_b = value_error (codes "only b must be set for t=b")
event_error bad_value_type = value_error (codes "unsupported value type ")

-- The error at an index of a batch, or what the events after it give.
unfoldable pub indexed_error : ℕ → Option EventError → Option GoError → Option GoError
unfolding event_error format_int
indexed_error i (some bad) later =
    some (wrapped (codes "event[" ++ (format_int i ++ codes "]: ")) (event_error bad))
indexed_error i none later = later

-- The loop over a batch; `none` is a nil error.
unfoldable pub validate_all : ℕ → List Event → Option GoError
unfolding validate indexed_error
validate_all i [] = none
validate_all i (e ∷ events) = indexed_error i (validate e) (validate_all (suc i) events)

-- The events, where there is no error.
unfoldable pub unless_bad : {A : Type 0} → Option GoError → A → GoError ⊎ A
unless_bad none a = inr a
unless_bad (some e) a = inl e

-- The checks of a decoded batch.
unfoldable pub checked_batch : List Event → GoError ⊎ List Event
unfolding validate_all unless_bad
checked_batch [] = inl (plain (codes "event batch must contain at least one event"))
checked_batch (e ∷ events) = unless_bad (validate_all 0 (e ∷ events)) (e ∷ events)

-- An event, where it is valid.
unfoldable pub unless_invalid : Option EventError → Event → GoError ⊎ Event
unfolding event_error
unless_invalid none event = inr event
unless_invalid (some bad) event = inl (event_error bad)

-- A validated event.
unfoldable pub checked_event : GoError ⊎ Event → GoError ⊎ Event
unfolding validate unless_invalid
checked_event (inl e) = inl (wrapped (codes "decode event: ") e)
checked_event (inr event) = unless_invalid (validate event) event

-- `ensureJSONEOF`; `none` is a nil error.
unfoldable pub ensure_json_eof : Trailing → Option GoError
ensure_json_eof at_eof = none
ensure_json_eof another_value = some (plain (codes "unexpected trailing json tokens"))
ensure_json_eof (broken e) = some (wrapped (codes "decode trailing json: ") e)

-- A value that counts where no error comes after it.
unfoldable pub unless_error : {A : Type 0} → GoError ⊎ A → Option GoError → GoError ⊎ A
unless_error (inl e) later = inl e
unless_error (inr a) none = inr a
unless_error (inr a) (some e) = inl e

-- `DecodeEvent`, with json.Unmarshal.
unfoldable pub decode_event : (Text → GoError ⊎ Event) → Text → GoError ⊎ Event
unfolding checked_event
decode_event unmarshal raw = checked_event (unmarshal raw)

-- The decoded events, or the error of the decoder.
unfoldable pub batch_events : GoError ⊎ DecodedBatch → GoError ⊎ List Event
unfolding first_of checked_batch
batch_events (inl e) = inl (wrapped (codes "decode event batch: ") e)
batch_events (inr batch) = checked_batch (first_of batch.count batch.array)

-- The scratch after a batch: it gets the slice where there is no error; else it keeps its own,
-- whose array the decoder changed.
unfoldable pub scratch_after :
    DecodeScratch → List Event → GoError ⊎ DecodedBatch → GoError ⊎ List Event → DecodeScratch
scratch_after scratch left decoded (inl e) = record { length = scratch.length; array = left }
scratch_after scratch left (inl e) (inr events) = record { length = scratch.length; array = left }
scratch_after scratch left (inr batch) (inr events) = record {
  length = batch.count;
  array = batch.array;
}

-- `append(scratch.events[:0], event)`.
unfoldable pub single_scratch : DecodeScratch → Event → DecodeScratch
single_scratch scratch event = elim scratch.array [
  | [] ↦ record { length = 1; array = event ∷ [] }
  | old ∷ rest ↦ record { length = 1; array = event ∷ rest }
]

unfoldable pub single_into :
    DecodeScratch → GoError ⊎ Event → DecodeScratch × (GoError ⊎ List Event)
unfolding single_scratch
single_into scratch (inl e) = (scratch, inl e)
single_into scratch (inr event) = (single_scratch scratch event, inr (event ∷ []))

module _ {D : Type 0} (json : JsonDecoder D) where
  -- `DecodeEventReader`.
  unfoldable pub decode_event_reader : D → D × (GoError ⊎ Event)
  unfolding checked_event
  decode_event_reader d = let (next, decoded) = json.decode_event d in (next, checked_event decoded)

  -- `DecodeEventsReader`, into a nil slice.
  unfoldable pub decode_events_reader : D → D × (GoError ⊎ List Event)
  unfolding batch_events
  decode_events_reader d =
      let (next, array, decoded) = json.decode_events d [] in (next, batch_events decoded)

  -- `decodeSingleEvent`.
  unfoldable pub decode_single_event : D → GoError ⊎ Event
  unfolding decode_event_reader ensure_json_eof unless_error
  decode_single_event d =
      let (next, event) = decode_event_reader d in
      unless_error event (ensure_json_eof (json.decode_raw next))

  -- `decodeBatchEvents`.
  unfoldable pub decode_batch_events : D → GoError ⊎ List Event
  unfolding decode_events_reader ensure_json_eof unless_error
  decode_batch_events d =
      let (next, events) = decode_events_reader d in
      unless_error events (ensure_json_eof (json.decode_raw next))

  -- `decodeBatchEventsInto`.
  unfoldable pub decode_batch_events_into :
      D → DecodeScratch → DecodeScratch × (GoError ⊎ List Event)
  unfolding batch_events ensure_json_eof unless_error scratch_after
  decode_batch_events_into d scratch =
      let (next, left, decoded) = json.decode_events d scratch.array in
      let result = unless_error (batch_events decoded) (ensure_json_eof (json.decode_raw next)) in
      (scratch_after scratch left decoded result, result)

  -- The decoding of a payload without spaces around it.
  unfoldable pub decode_trimmed : Text → DecodeScratch → DecodeScratch × (GoError ⊎ List Event)
  unfolding decode_batch_events_into decode_single_event single_into
  decode_trimmed [] scratch = (scratch, inl (plain (codes "empty payload")))
  decode_trimmed (c ∷ payload) scratch =
      let d = json.new_decoder (c ∷ payload) in
      if c == b'['
      then decode_batch_events_into d scratch
      else single_into scratch (decode_single_event d)

  -- `decodeEventPayloadInto`, which `decodeNATSEvents` calls.
  unfoldable pub decode_event_payload_into :
      Text → DecodeScratch → DecodeScratch × (GoError ⊎ List Event)
  unfolding decode_trimmed
  decode_event_payload_into raw scratch = decode_trimmed (trim_space raw) scratch

-- `EventSink`; `push_batch` is there where the sink is a `batchEventSink`.
pub record EventSink (S : Type 0) : Type 0 where
  pub push : S → Event → S × Option GoError
  pub push_batch : Option (S → List Event → S × Option GoError)

module _ {S : Type 0} (sink : EventSink S) where
  -- The loop of `pushEvents`, up to the first error.
  unfoldable pub push_each : S → List Event → S × Option GoError
  push_each s [] = (s, none)
  push_each s (e ∷ events) =
      let rest = push_each (sink.push s e).0 events in
      elim (sink.push s e).1 [ some bad ↦ ((sink.push s e).0, some bad) | none ↦ rest ]

  -- `pushEvents`.
  unfoldable pub push_all_events : S → List Event → S × Option GoError
  unfolding push_each
  push_all_events s [] = (s, none)
  push_all_events s (e ∷ events) = elim sink.push_batch [
    | some push_batch ↦ push_batch s (e ∷ events)
    | none ↦ push_each s (e ∷ events)
  ]
