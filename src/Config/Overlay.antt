-- ===== src/Config/Overlay.antt =====
-- internal/config/config.go: the tests that guard the merge of a section miss no field that it merges.
use malert.Base.{
  ◌==◌, is_some, Assoc, Int64, Text, ◌≡◌, refl, Bool, true, false, not, Option, none, some, List,
  [], ◌∷◌, arith, All,
}
use malert.Config.Explicit.{
  QueueMergeHints, queue_tests, queue_flags, telegram_flags, telegram_tests, action_flags,
  has_tracker_action_config, tracker_flags, has_tracker_notifier_config, http_flags, http_tests,
  mattermost_flags, mattermost_tests,
}
use malert.Config.Merge.{
  any_of, has_any_string, has_any_non_zero, has_entries, replace_slice, append_slice,
  apply_bool_merge, apply_bool_hint_merge, merge_string, merge_non_zero_int, merge_string_map,
  has_retry, merge_retry,
}
use malert.Config.MergeNotify.{
  merge_notify_queue, merge_telegram_notifier, merge_http_notifier, merge_mattermost_notifier,
  merge_tracker_action_config, merge_tracker_notifier,
}
use malert.Config.Notify.{
  NotifyRetry, NotifyQueue, TelegramNotifier, HttpNotifier, MattermostConfig, TrackerActionConfig,
  TrackerNotifier,
}
use malert.Config.ValidateNotify.{is_blank}

pub any_of-All : (bs : List Bool) → any_of bs ≡ false → All (λ b. b ≡ false) bs
unfolding any_of
any_of-All [] h = tt
any_of-All (false ∷ bs) h = (refl, any_of-All bs h)
any_of-All (true ∷ bs) h = cc

pub has_any_string-All :
    (ss : List Text) → has_any_string ss ≡ false → All (λ s. is_blank s ≡ true) ss
unfolding has_any_string
has_any_string-All [] h = tt
has_any_string-All (s ∷ ss) h = ground (arith, has_any_string-All ss)

pub has_any_non_zero-All :
    (ns : List Int64) → has_any_non_zero ns ≡ false → All (λ n. (n == 0) ≡ true) ns
unfolding has_any_non_zero
has_any_non_zero-All [] h = tt
has_any_non_zero-All (n ∷ ns) h = ground (arith, has_any_non_zero-All ns)

pub not-inner : (b : Bool) → not b ≡ false → b ≡ true
not-inner true h = refl
not-inner false h = cc

module _ {A : Type 0} where
  pub replace_slice-empty :
      (dst src : List A) → has_entries src ≡ false → replace_slice dst src ≡ dst
  unfolding has_entries replace_slice
  replace_slice-empty dst [] h = refl
  replace_slice-empty dst (a ∷ src) h = cc

  pub append_slice-empty : (dst src : List A) → has_entries src ≡ false → append_slice dst src ≡ dst
  unfolding has_entries append_slice
  append_slice-empty dst [] h = refl
  append_slice-empty dst (a ∷ src) h = cc

pub merge_string_map-empty :
    (dst src : Assoc Text) → has_entries src ≡ false → merge_string_map dst src ≡ dst
unfolding has_entries merge_string_map
merge_string_map-empty dst [] h = refl
merge_string_map-empty dst (a ∷ src) h = cc

pub apply_bool_merge-unset :
    (dst value : Bool) (hint : Option Bool)
    → value ≡ false
    → is_some hint ≡ false
    → apply_bool_merge dst value hint ≡ dst
unfolding apply_bool_merge
apply_bool_merge-unset dst false none e h = ground arith
apply_bool_merge-unset dst true none e h = cc
apply_bool_merge-unset dst value (some b) e h = cc

pub apply_bool_hint_merge-unset :
    (dst : Bool) (hint : Option Bool) → is_some hint ≡ false → apply_bool_hint_merge dst hint ≡ dst
unfolding apply_bool_hint_merge
apply_bool_hint_merge-unset dst none h = refl
apply_bool_hint_merge-unset dst (some b) h = cc

pub merge_string-blank : (dst src : Text) → is_blank src ≡ true → merge_string dst src ≡ dst
unfolding merge_string
merge_string-blank dst src h = rw h refl

pub merge_non_zero_int-zero :
    (dst src : Int64) → (src == 0) ≡ true → merge_non_zero_int dst src ≡ dst
unfolding merge_non_zero_int
merge_non_zero_int-zero dst src h = rw h refl

pub merge_retry-unset : (dst src : NotifyRetry) → has_retry src ≡ false → merge_retry dst src ≡ dst
unfolding merge_retry
merge_retry-unset dst src h = rw h refl

pub merge_notify_queue-unset :
    (dst src : NotifyQueue) (hints : QueueMergeHints)
    → queue_tests src ≡ false
    → is_some hints.enabled ≡ false
    → is_some hints.dlq ≡ false
    → merge_notify_queue dst src hints ≡ dst
unfolding merge_notify_queue queue_tests queue_flags
merge_notify_queue-unset dst src hints h he hd =
    let (enabled, (dlq, (numbers, end))) = any_of-All (queue_flags src) h in
    let (n1, (n2, (n3, (n4, last)))) =
      has_any_non_zero-All
        (src.ack_wait_sec ∷ src.nack_delay_ms ∷ src.max_deliver ∷ src.max_ack_pending ∷ [])
        numbers in
    rw
      (
        apply_bool_merge-unset dst.enabled src.enabled hints.enabled enabled he,
        apply_bool_merge-unset dst.dlq src.dlq hints.dlq dlq hd,
        merge_non_zero_int-zero dst.ack_wait_sec src.ack_wait_sec n1,
        merge_non_zero_int-zero dst.nack_delay_ms src.nack_delay_ms n2,
        merge_non_zero_int-zero dst.max_deliver src.max_deliver n3,
        merge_non_zero_int-zero dst.max_ack_pending src.max_ack_pending n4,
      )
      refl

pub merge_telegram_notifier-unset :
    (dst src : TelegramNotifier) (hint : Option Bool)
    → telegram_tests src ≡ false
    → is_some hint ≡ false
    → merge_telegram_notifier dst src hint ≡ dst
unfolding merge_telegram_notifier telegram_tests telegram_flags
merge_telegram_notifier-unset dst src hint h hint_unset =
    let (enabled, (texts, (retry, (templates, end)))) = any_of-All (telegram_flags src) h in
    let (t1, (t2, (t3, (t4, last)))) =
      has_any_string-All (src.bot_token ∷ src.chat_id ∷ src.active_chat_id ∷ src.api_base ∷ [])
        texts in
    rw
      (
        apply_bool_merge-unset dst.enabled src.enabled hint enabled hint_unset,
        merge_string-blank dst.bot_token src.bot_token t1,
        merge_string-blank dst.chat_id src.chat_id t2,
        merge_string-blank dst.active_chat_id src.active_chat_id t3,
        merge_string-blank dst.api_base src.api_base t4,
        merge_retry-unset dst.retry src.retry retry,
        append_slice-empty dst.name_template src.name_template templates,
      )
      refl

pub merge_http_notifier-unset :
    (dst src : HttpNotifier) (hint : Option Bool)
    → http_tests src ≡ false
    → is_some hint ≡ false
    → merge_http_notifier dst src hint ≡ dst
unfolding merge_http_notifier http_tests http_flags
merge_http_notifier-unset dst src hint h hint_unset =
    let (enabled, (texts, (timeout, (headers, (retry, (templates, end)))))) =
      any_of-All (http_flags src) h in
    let (t1, (t2, last)) = has_any_string-All (src.url ∷ src.method ∷ []) texts in
    rw
      (
        apply_bool_merge-unset dst.enabled src.enabled hint enabled hint_unset,
        merge_string-blank dst.url src.url t1,
        merge_string-blank dst.method src.method t2,
        merge_non_zero_int-zero dst.timeout_sec src.timeout_sec (not-inner _ timeout),
        merge_string_map-empty dst.headers src.headers headers,
        merge_retry-unset dst.retry src.retry retry,
        append_slice-empty dst.name_template src.name_template templates,
      )
      refl

pub merge_mattermost_notifier-unset :
    (dst src : MattermostConfig) (hint : Option Bool)
    → mattermost_tests src ≡ false
    → is_some hint ≡ false
    → merge_mattermost_notifier dst src hint ≡ dst
unfolding merge_mattermost_notifier mattermost_tests mattermost_flags
merge_mattermost_notifier-unset dst src hint h hint_unset =
    let (enabled, (texts, (timeout, (retry, (templates, end))))) =
      any_of-All (mattermost_flags src) h in
    let (t1, (t2, (t3, (t4, last)))) =
      has_any_string-All
        (src.base_url ∷ src.bot_token ∷ src.channel_id ∷ src.active_channel_id ∷ []) texts in
    rw
      (
        apply_bool_merge-unset dst.enabled src.enabled hint enabled hint_unset,
        merge_string-blank dst.base_url src.base_url t1,
        merge_string-blank dst.bot_token src.bot_token t2,
        merge_string-blank dst.channel_id src.channel_id t3,
        merge_string-blank dst.active_channel_id src.active_channel_id t4,
        merge_non_zero_int-zero dst.timeout_sec src.timeout_sec (not-inner _ timeout),
        merge_retry-unset dst.retry src.retry retry,
        append_slice-empty dst.name_template src.name_template templates,
      )
      refl

pub merge_tracker_action_config-unset :
    (dst src : TrackerActionConfig)
    → has_tracker_action_config src ≡ false
    → merge_tracker_action_config dst src ≡ dst
unfolding merge_tracker_action_config has_tracker_action_config action_flags
merge_tracker_action_config-unset dst src h =
    let (texts, (headers, (statuses, end))) = any_of-All (action_flags src) h in
    let (t1, (t2, (t3, (t4, last)))) =
      has_any_string-All (src.method ∷ src.path ∷ src.body_template ∷ src.ref_json_path ∷ [])
        texts in
    rw
      (
        merge_string-blank dst.method src.method t1,
        merge_string-blank dst.path src.path t2,
        merge_string-blank dst.body_template src.body_template t3,
        merge_string-blank dst.ref_json_path src.ref_json_path t4,
        merge_string_map-empty dst.headers src.headers headers,
        replace_slice-empty dst.success_status src.success_status statuses,
      )
      refl

pub merge_tracker_notifier-unset :
    (dst src : TrackerNotifier) (hint : Option Bool)
    → has_tracker_notifier_config src ≡ false
    → is_some hint ≡ false
    → merge_tracker_notifier dst src hint ≡ dst
unfolding merge_tracker_notifier has_tracker_notifier_config tracker_flags
merge_tracker_notifier-unset dst src hint h hint_unset =
    let (enabled, (texts, (timeout, (auth, (retry, (templates, (opening, (closing, end)))))))) =
      any_of-All (tracker_flags src) h in
    let (t1, last) = has_any_string-All (src.base_url ∷ []) texts in
    rw
      (
        apply_bool_merge-unset dst.enabled src.enabled hint enabled hint_unset,
        merge_string-blank dst.base_url src.base_url t1,
        merge_non_zero_int-zero dst.timeout_sec src.timeout_sec (not-inner _ timeout),
        auth,
        merge_tracker_action_config-unset dst.create src.create opening,
        merge_tracker_action_config-unset dst.resolve src.resolve closing,
        merge_retry-unset dst.retry src.retry retry,
        append_slice-empty dst.name_template src.name_template templates,
      )
      refl
