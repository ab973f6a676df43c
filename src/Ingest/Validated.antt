-- ===== src/Ingest/Validated.antt =====
-- internal/ingest/codec.go: what is decoded without an error is valid.
use malert.Permanent.{GoError}
use malert.Base.{
  ◌==◌, Bool-cases, All, Text, ℕ, suc, ◌≡◌, refl, ap, subst, ◌≢◌, ◌⊎◌, inl, inr, Option, none, some,
  List, [], ◌∷◌,
}
use malert.Ingest.Codec.{
  DecodedBatch, JsonDecoder, DecodeScratch, zero_event, first_of, validate_all, checked_batch,
  checked_event, unless_error, batch_events, single_into, decode_event_reader, decode_events_reader,
  decode_single_event, decode_batch_events, decode_batch_events_into, decode_trimmed, indexed_error,
  unless_bad, unless_invalid,
}
use malert.Domain.Event.{Event, validate, EventError}

-- What a batch was decoded to: at least one event, and only valid ones.
abbrev pub Validated : List Event → Type 0
Validated events = (events ≢ []) × All (λ e. validate e ≡ none) events

indexed_error-none :
    (i : ℕ) (bad : Option EventError) (later : Option GoError)
    → indexed_error i bad later ≡ none
    → (bad ≡ none) × (later ≡ none)
unfolding indexed_error
indexed_error-none i none later h = (refl, h)
indexed_error-none i (some bad) later h = cc

validate_all-none :
    (i : ℕ) (events : List Event)
    → validate_all i events ≡ none
    → All (λ e. validate e ≡ none) events
unfolding validate_all
validate_all-none i [] h = tt
validate_all-none i (e ∷ events) h =
    let both = indexed_error-none i (validate e) (validate_all (suc i) events) h in
    (both.0, validate_all-none (suc i) events both.1)

events_of : GoError ⊎ List Event → List Event
events_of (inl e) = []
events_of (inr events) = events

event_of : GoError ⊎ Event → Event
event_of (inl e) = zero_event
event_of (inr event) = event

unless_bad-inr :
    (bad : Option GoError) (a b : List Event) → unless_bad bad a ≡ inr b → (bad ≡ none) × (a ≡ b)
unfolding unless_bad events_of
unless_bad-inr none a b h = (refl, ap events_of h)
unless_bad-inr (some e) a b h = cc

unless_invalid-inr :
    (bad : Option EventError) (a b : Event) → unless_invalid bad a ≡ inr b → (bad ≡ none) × (a ≡ b)
unfolding unless_invalid event_of
unless_invalid-inr none a b h = (refl, ap event_of h)
unless_invalid-inr (some e) a b h = cc

checked_batch-Validated :
    (events good : List Event) → checked_batch events ≡ inr good → Validated good
unfolding checked_batch
checked_batch-Validated [] good h = cc
checked_batch-Validated (e ∷ events) good h =
    let both = unless_bad-inr (validate_all 0 (e ∷ events)) (e ∷ events) good h in
    subst Validated both.1 (λ empty. cc, validate_all-none 0 (e ∷ events) both.0)

checked_event-valid :
    (decoded : GoError ⊎ Event) (event : Event)
    → checked_event decoded ≡ inr event
    → validate event ≡ none
unfolding checked_event
checked_event-valid (inl e) event h = cc
checked_event-valid (inr x) event h =
    let both = unless_invalid-inr (validate x) x event h in
    subst (λ e. validate e ≡ none) both.1 both.0

batch_events-Validated :
    (decoded : GoError ⊎ DecodedBatch) (events : List Event)
    → batch_events decoded ≡ inr events
    → Validated events
unfolding batch_events
batch_events-Validated (inl e) events h = cc
batch_events-Validated (inr batch) events h =
    checked_batch-Validated (first_of batch.count batch.array) events h

unless_error-same :
    {A : Type 0} (x : GoError ⊎ A) (later : Option GoError) (a : A)
    → unless_error x later ≡ inr a
    → x ≡ inr a
unfolding unless_error
unless_error-same (inl e) later a h = h
unless_error-same (inr x) none a h = h
unless_error-same (inr x) (some e) a h = cc

module _ {D : Type 0} (json : JsonDecoder D) where
  pub decode_single_event-valid :
      (d : D) (event : Event) → decode_single_event json d ≡ inr event → validate event ≡ none
  unfolding decode_single_event decode_event_reader
  decode_single_event-valid d event h =
      checked_event-valid (json.decode_event d).1 event (unless_error-same _ _ event h)

  pub decode_batch_events-Validated :
      (d : D) (events : List Event) → decode_batch_events json d ≡ inr events → Validated events
  unfolding decode_batch_events decode_events_reader
  decode_batch_events-Validated d events h =
      batch_events-Validated _ events (unless_error-same _ _ events h)

  single_into-Validated :
      (scratch : DecodeScratch) (decoded : GoError ⊎ Event) (events : List Event)
      → ((event : Event) → decoded ≡ inr event → validate event ≡ none)
      → (single_into scratch decoded).1 ≡ inr events
      → Validated events
  unfolding single_into events_of
  single_into-Validated scratch (inl e) events valid h = cc
  single_into-Validated scratch (inr event) events valid h =
      let same : event ∷ [] ≡ events = ap events_of h in
      subst Validated same (λ empty. cc, (valid event refl, tt))

  pub decode_trimmed-Validated :
      (payload : Text) (scratch : DecodeScratch) (events : List Event)
      → (decode_trimmed json payload scratch).1 ≡ inr events
      → Validated events
  unfolding decode_trimmed decode_batch_events_into
  decode_trimmed-Validated [] scratch events h = cc
  decode_trimmed-Validated (c ∷ payload) scratch events h = elim (Bool-cases (c == b'[')) [
    | inl e ↦ batch_events-Validated _ events (unless_error-same _ _ events (rw e at h))
    | inr e ↦
        single_into-Validated scratch _ events
          (decode_single_event-valid (json.new_decoder (c ∷ payload))) (rw e at h)
  ]
