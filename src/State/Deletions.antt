-- ===== src/State/Deletions.antt =====
-- internal/state/delete_consumer.go: the delete markers of the tick bucket. The NATS client and the
-- callback are parameters. A marker's acknowledgement that fails is not looked at.
use malert.Permanent.{GoError}
use malert.Base.{
  Text, codes, is_empty, has_prefix, has_prefix-append, ◌≡◌, refl, not, ◌||◌, Option, none, some,
  [], ◌∷◌, ◌++◌, if◌then◌else◌, ◌≢◌, ◌⊎◌, inl, inr, false,
}

-- A message of the tick bucket's stream.
pub record MarkerMessage : Type 0 where
  pub subject : Text
  pub marker_reason : Text
  pub body : Text

-- What a message gets at last.
pub data MarkerAnswer : Type 0 where
  marker_acked marker_nacked : MarkerAnswer

-- strings.TrimPrefix of a text that has the prefix.
unfoldable pub drop_prefix : Text → Text → Text
drop_prefix s [] = s
drop_prefix [] (p ∷ prefix) = []
drop_prefix (c ∷ s) (p ∷ prefix) = drop_prefix s prefix

-- `"$KV." + bucket + "."`, which is also the field `tickSubjectPrefix` of the store.
unfoldable pub tick_subject_prefix : Text → Text
tick_subject_prefix bucket = codes "$KV." ++ (bucket ++ codes ".")

-- `extractKVKeyFromSubject`.
unfoldable pub extract_kv_key_from_subject : Text → Text → Text
unfolding has_prefix drop_prefix tick_subject_prefix
extract_kv_key_from_subject bucket subject =
    if not (has_prefix subject (tick_subject_prefix bucket))
    then []
    else drop_prefix subject (tick_subject_prefix bucket)

-- The answer to a message after its callback.
unfoldable pub marker_answer : {N : Type 0} → N × Option GoError → N × MarkerAnswer
marker_answer (n, none) = (n, marker_acked)
marker_answer (n, some e) = (n, marker_nacked)

-- The callback of `NewDeleteMarkerConsumer`; `handler` is none where it is nil.
unfoldable pub consume_marker :
    {N : Type 0}
    → Option (N → Text → Text → N × Option GoError)
    → Text
    → N
    → MarkerMessage
    → N × MarkerAnswer
unfolding extract_kv_key_from_subject marker_answer
consume_marker handler bucket n message =
    let id = extract_kv_key_from_subject bucket message.subject in
    if not (is_empty message.body) || is_empty id then (n, marker_acked) else elim handler [
      | none ↦ (n, marker_acked)
      | some handle ↦ marker_answer (handle n id message.marker_reason)
    ]

marker_answer-cases :
    {N : Type 0} (called : N × Option GoError)
    → ((marker_answer called).0 ≡ called.0)
      × ((called.1 ≡ none × (marker_answer called).1 ≡ marker_acked)
          ⊎ (called.1 ≢ none × (marker_answer called).1 ≡ marker_nacked))
unfolding marker_answer
marker_answer-cases (n, none) = (refl, inl (refl, refl))
marker_answer-cases (n, some e) = (refl, inr (λ h. cc, refl))

drop_prefix-append : (prefix s : Text) → drop_prefix (prefix ++ s) prefix ≡ s
unfolding drop_prefix
drop_prefix-append [] s = refl
drop_prefix-append (c ∷ prefix) s = drop_prefix-append prefix s

extract_kv_key-prefix :
    (bucket id : Text) → extract_kv_key_from_subject bucket (tick_subject_prefix bucket ++ id) ≡ id
unfolding extract_kv_key_from_subject
extract_kv_key-prefix bucket id =
    rw (has_prefix-append (tick_subject_prefix bucket) id)
      (drop_prefix-append (tick_subject_prefix bucket) id)

nonempty : (s : Text) → s ≢ [] → is_empty s ≡ false
unfolding is_empty
nonempty [] h = absurd (h refl)
nonempty (c ∷ s) h = refl

-- A message with the subject under which the store refreshes the tick of an alert, whose ID is not
-- empty. A marker, which has no body, calls the handler once, with that ID, and is acknowledged
-- where the handler gives no error and negatively acknowledged where it does; a message with a body
-- is acknowledged without a call.
pub consume_marker-tick :
    {N : Type 0} (handle : N → Text → Text → N × Option GoError) (bucket : Text) (n : N) (id : Text)
    (reason : Text) (body : Text)
    → id ≢ []
    → (let answer = consume_marker (some handle) bucket n (record {
      subject = tick_subject_prefix bucket ++ id;
      marker_reason = reason;
      body = body;
    }) in
        (body ≡ []
          → (answer.0 ≡ (handle n id reason).0)
            × (((handle n id reason).1 ≡ none × answer.1 ≡ marker_acked)
                ⊎ ((handle n id reason).1 ≢ none × answer.1 ≡ marker_nacked)))
        × (body ≢ [] → answer ≡ (n, marker_acked)))
unfolding consume_marker is_empty
consume_marker-tick handle bucket n id reason body h = (
  λ e.
      rw (e, extract_kv_key-prefix bucket id, nonempty id h)
        (marker_answer-cases (handle n id reason)),
  λ ne. rw (nonempty body ne) refl,
)
