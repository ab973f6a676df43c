-- ===== src/State/Prefix.antt =====
-- internal/state/store.go, `RuleAlertPrefix`, against internal/engine/key_builder.go: which alerts of a
-- rule `ListAlertIDsByRule` finds.
use malert.Base.{
  length, Text, text_eq, trim_space, is_empty, has_prefix, Unicode, to_lower, ℕ, suc, ◌≡◌, refl, ap,
  false, [], ◌∷◌, ◌++◌, map, arith, Bool-cases, Option-cases, sym, ◌∙◌, subst, inl, inr,
}
use malert.Config.Rule.{RuleConfig}
use malert.State.Memory.{rule_alert_prefix}
use malert.Domain.Event.{Event}
use malert.Engine.Key.{
  sanitize, keyed, alert_key, build_alert_key, sanitize_rune, sorted_key_tags, canonical, KeyError,
  rule_name_required, key_tag_missing, no_key,
}

prefix_of_same_length :
    (c : ℕ) (a b rest : Text)
    → length a ≡ length b
    → has_prefix (b ++ (c ∷ rest)) (a ++ c ∷ []) ≡ text_eq b a
unfolding has_prefix text_eq
prefix_of_same_length c [] [] rest h = ground arith
prefix_of_same_length c [] (y ∷ b) rest h = ground arith
prefix_of_same_length c (x ∷ a) [] rest h = ground arith
prefix_of_same_length c (x ∷ a) (y ∷ b) rest h = ground (arith, prefix_of_same_length c a b rest)

length-map : (f : ℕ → ℕ) (s : Text) → length (map f s) ≡ length s
length-map f [] = refl
length-map f (c ∷ s) = ap suc (length-map f s)

sanitize-length :
    (name : Text)
    → is_empty (trim_space name) ≡ false
    → length (sanitize name) ≡ length (trim_space name)
unfolding sanitize
sanitize-length name h = rw (sanitize, h) (length-map sanitize_rune (trim_space name))

no_key_keyed : (e : KeyError) (id : Text) → no_key e ≡ keyed id → ⊥
no_key_keyed e id h = cc

module _ (u : Unicode) (digest : Text → Text) where
  key_prefix :
      (name var text : Text)
      → is_empty (trim_space name) ≡ false
      → has_prefix (alert_key digest name var text) (rule_alert_prefix u name)
        ≡ text_eq (sanitize name) (to_lower u (trim_space name))
  unfolding alert_key rule_alert_prefix has_prefix to_lower
  key_prefix name var text h =
      prefix_of_same_length b'/' (to_lower u (trim_space name)) (sanitize name) _
        (length-map u.lower (trim_space name) ∙ sym (sanitize-length name h))

  -- The alert that an event raises for a rule is found by the name of the rule if and only if the
  -- name, trimmed and lowered, is already in the form that the key gives it.
  pub build_alert_key-prefix :
      (rule : RuleConfig) (event : Event) (id : Text)
      → build_alert_key digest rule event ≡ keyed id
      → has_prefix id (rule_alert_prefix u rule.name)
        ≡ text_eq (sanitize rule.name) (to_lower u (trim_space rule.name))
  unfolding build_alert_key
  build_alert_key-prefix rule event id h = elim (Bool-cases (is_empty (trim_space rule.name))) [
    | inl e ↦ elim (no_key_keyed rule_name_required id (rw e at h)) [ ]
    | inr e ↦ elim (Option-cases (canonical (sorted_key_tags rule.key.from_tags) event.tags)) [
      | inl q ↦ elim (no_key_keyed key_tag_missing id (rw q at rw e at h)) [ ]
      | inr (text, q) ↦
          let same : keyed (alert_key digest rule.name event.var text) ≡ keyed id =
            rw q at rw e at h in
          let made : alert_key digest rule.name event.var text ≡ id = cc in
          subst
            (λ i.
              has_prefix i (rule_alert_prefix u rule.name)
              ≡ text_eq (sanitize rule.name) (to_lower u (trim_space rule.name)))
            made (key_prefix rule.name event.var text e)
    ]
  ]
