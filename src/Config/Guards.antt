-- ===== src/Config/Guards.antt =====
-- internal/config/config.go: the guards of `mergeConfig` skip no section that a file sets.
use malert.Base.{is_some, Bool-cases, ◌≡◌, refl, sym, inl, inr, Bool, false, ◌||◌, [], ◌∷◌, arith}
use malert.Config.Service.{UiConfig, Config}
use malert.Config.Explicit.{
  NotifyMergeHints, UiMergeHints, hint_flags, notify_has_explicit_bool, ui_has_explicit_bool,
  notify_flags, has_notify_config, ui_flags, has_ui_config,
}
use malert.Config.MergeFiles.{ConfigMergeHints, merge_notify, merge_ui, merge_config}
use malert.Config.Overlay.{
  any_of-All, has_any_string-All, has_any_non_zero-All, not-inner, replace_slice-empty,
  apply_bool_merge-unset, apply_bool_hint_merge-unset, merge_string-blank, merge_non_zero_int-zero,
  merge_notify_queue-unset, merge_telegram_notifier-unset, merge_http_notifier-unset,
  merge_mattermost_notifier-unset, merge_tracker_notifier-unset,
}
use malert.Config.MergeNotify.{merge_notify_config, merge_ui_config}
use malert.Config.Notify.{NotifyConfig}

merge_notify_config-unset :
    (dst src : NotifyConfig) (hints : NotifyMergeHints)
    → has_notify_config src ≡ false
    → notify_has_explicit_bool hints ≡ false
    → merge_notify_config dst src hints ≡ dst
unfolding merge_notify_config has_notify_config notify_flags notify_has_explicit_bool hint_flags
merge_notify_config-unset dst src hints h g =
    let (
      repeat,
      (
        every,
        (
          on,
          (
            per_channel,
            (on_pending, (queue, (telegram, (http, (mattermost, (jira, (youtrack, end))))))),
          ),
        ),
      ),
    ) =
      any_of-All (notify_flags src) h in
    let (h1, (h2, (h3, (h4, (h5, (h6, (h7, (h8, (h9, (h10, last)))))))))) =
      any_of-All (hint_flags hints) g in
    rw
      (
        apply_bool_merge-unset dst.repeat src.repeat hints.repeat repeat h1,
        merge_non_zero_int-zero dst.repeat_every_sec src.repeat_every_sec (not-inner _ every),
        replace_slice-empty dst.repeat_on src.repeat_on on,
        apply_bool_merge-unset dst.repeat_per_channel src.repeat_per_channel
            hints.repeat_per_channel per_channel h2,
        apply_bool_merge-unset dst.on_pending src.on_pending hints.on_pending on_pending h3,
        merge_notify_queue-unset dst.queue src.queue hints.queue queue h4 h5,
        merge_telegram_notifier-unset dst.telegram src.telegram hints.telegram telegram h6,
        merge_http_notifier-unset dst.http src.http hints.http http h7,
        merge_mattermost_notifier-unset dst.mattermost src.mattermost hints.mattermost mattermost
            h8,
        merge_tracker_notifier-unset dst.jira src.jira hints.jira jira h9,
        merge_tracker_notifier-unset dst.youtrack src.youtrack hints.youtrack youtrack h10,
      )
      refl

merge_ui_config-unset :
    (dst src : UiConfig) (hints : UiMergeHints)
    → has_ui_config src ≡ false
    → is_some hints.enabled ≡ false
    → is_some hints.basic_enabled ≡ false
    → merge_ui_config dst src hints ≡ dst
unfolding merge_ui_config has_ui_config ui_flags
merge_ui_config-unset dst src hints h h1 h2 =
    let (enabled, (texts, (refresh, (basic, (urls, (numbers, end)))))) =
      any_of-All (ui_flags src) h in
    let (t1, (t2, (t3, (t4, (t5, (t6, last)))))) =
      has_any_string-All
        (src.listen ∷ src.base_path ∷ src.auth.basic.username ∷ src.auth.basic.password
          ∷ src.nats.registry_bucket ∷ src.service.public_base_url ∷ [])
        texts in
    let (n1, (n2, (n3, (n4, final)))) =
      has_any_non_zero-All
        (src.nats.registry_ttl_sec ∷ src.nats.stale_after_sec ∷ src.nats.offline_after_sec
          ∷ src.health.timeout_sec ∷ [])
        numbers in
    rw
      (
        apply_bool_hint_merge-unset dst.enabled hints.enabled h1,
        merge_string-blank dst.listen src.listen t1,
        merge_string-blank dst.base_path src.base_path t2,
        merge_non_zero_int-zero dst.refresh_sec src.refresh_sec (not-inner _ refresh),
        apply_bool_hint_merge-unset dst.auth.basic.enabled hints.basic_enabled h2,
        merge_string-blank dst.auth.basic.username src.auth.basic.username t3,
        merge_string-blank dst.auth.basic.password src.auth.basic.password t4,
        replace_slice-empty dst.nats.url src.nats.url urls,
        merge_string-blank dst.nats.registry_bucket src.nats.registry_bucket t5,
        merge_non_zero_int-zero dst.nats.registry_ttl_sec src.nats.registry_ttl_sec n1,
        merge_non_zero_int-zero dst.nats.stale_after_sec src.nats.stale_after_sec n2,
        merge_non_zero_int-zero dst.nats.offline_after_sec src.nats.offline_after_sec n3,
        merge_non_zero_int-zero dst.health.timeout_sec src.health.timeout_sec n4,
        merge_string-blank dst.service.public_base_url src.service.public_base_url t6,
      )
      refl

-- Both sides of an || that is false.
both-unset : (a b : Bool) → (a || b) ≡ false → (a ≡ false) × (b ≡ false)
both-unset a b h = ground arith

-- The guards of the sections notify and ui skip nothing: whatever the file sets, the merged section is
-- the field-by-field merge.
pub merge_config-guards :
    (dst src : Config) (hints : ConfigMergeHints)
    → ((merge_config dst src hints).notify ≡ merge_notify_config dst.notify src.notify hints.notify)
      × ((merge_config dst src hints).ui ≡ merge_ui_config dst.ui src.ui hints.ui)
unfolding merge_config merge_notify merge_ui ui_has_explicit_bool
merge_config-guards dst src hints = (
  elim (Bool-cases (has_notify_config src.notify || notify_has_explicit_bool hints.notify)) [
    | inl e ↦ rw e refl
    | inr e ↦
        let (a, b) = both-unset _ _ e in
        rw e (sym (merge_notify_config-unset dst.notify src.notify hints.notify a b))
  ],
  elim (Bool-cases (has_ui_config src.ui || ui_has_explicit_bool hints.ui)) [
    | inl e ↦ rw e refl
    | inr e ↦
        let (a, b) = both-unset (has_ui_config src.ui) _ e in
        let (c, d) = both-unset (is_some hints.ui.enabled) _ b in
        rw e (sym (merge_ui_config-unset dst.ui src.ui hints.ui a c d))
  ],
)
