-- ===== src/Manager/Rules.antt =====
-- internal/app/manager.go: the rules of a configuration, made ready for the manager, and the change
-- to a new configuration.
use malert.Base.{
  Assoc, insert, has_key, Unicode, text_leb, false, none, some, List, [], ◌∷◌, map, if◌then◌else◌,
}
use malert.Manager.Routes.{normalized_notify_route}
use malert.Manager.App.{World, Settings, App, Run, pure, and_then}
use malert.Manager.Closing.{cleanup_removed_rule}
use malert.Config.Rule.{RuleNotifyRoute, RuleNotifyOff, RuleConfig}
use malert.Config.OffWindow.{compile_notify_off_window}
use malert.Engine.Key.{sorted_key_tags}
use malert.Engine.State.{new_engine}

-- The loop of `normalizeRule` over the routes.
unfoldable pub normalize_routes : Unicode → List RuleNotifyRoute → List RuleNotifyRoute
unfolding normalized_notify_route
normalize_routes u [] = []
normalize_routes u (route ∷ routes) =
    let rest = normalize_routes u routes in
    elim (normalized_notify_route u route false) [
      | none ↦ rest
      | some r ↦
          record { name = r.key; channel = r.channel; template = r.template; mode = r.mode } ∷ rest
    ]

-- The loop of `normalizeRule` over the off windows.
unfoldable pub normalize_off : Unicode → RuleNotifyOff → RuleNotifyOff
unfolding compile_notify_off_window
normalize_off u window = elim (compile_notify_off_window u window) [
  | none ↦ window
  | some c ↦ record window { compiled = some c }
]

-- `normalizeRule`.
unfoldable pub normalize_rule : Unicode → RuleConfig → RuleConfig
unfolding sorted_key_tags normalize_routes normalize_off
normalize_rule u rule = record rule {
  key = record (rule.key) { from_tags = sorted_key_tags rule.key.from_tags };
  notify = record (rule.notify) {
    route = normalize_routes u rule.notify.route;
    off = map (normalize_off u) rule.notify.off;
  };
}

-- sort.Slice by name.
unfoldable pub insert_rule : RuleConfig → List RuleConfig → List RuleConfig
insert_rule rule [] = rule ∷ []
insert_rule rule (r ∷ rules) =
    let rest = insert_rule rule rules in
    if text_leb rule.name r.name then rule ∷ r ∷ rules else r ∷ rest

unfoldable pub sort_rules : List RuleConfig → List RuleConfig
unfolding insert_rule
sort_rules [] = []
sort_rules (rule ∷ rules) = insert_rule rule (sort_rules rules)

-- The map of `buildRuleIndex`: a later rule of the same name replaces an earlier one.
unfoldable pub index_rules : List RuleConfig → Assoc RuleConfig → Assoc RuleConfig
index_rules [] index = index
index_rules (rule ∷ rules) index = index_rules rules (insert rule.name rule index)

-- The part of a configuration that the manager takes over, with the indexes of `buildRuleIndex`.
unfoldable pub with_rules : Unicode → Settings → List RuleConfig → Settings
unfolding normalize_rule sort_rules index_rules
with_rules u settings input =
    let normalized = map (normalize_rule u) input in
    record settings { rules = index_rules normalized []; sorted = sort_rules normalized }

module _ {w : World} where
  -- The loop of `ApplyConfig` over the old rules.
  unfoldable pub cleanup_missing : Assoc RuleConfig → Run w (Unit {0})
  unfolding cleanup_removed_rule
  cleanup_missing [] app = pure tt app
  cleanup_missing ((name, rule) ∷ rules) app =
      if has_key name app.settings.rules
      then cleanup_missing rules app
      else and_then (cleanup_removed_rule rule) (λ x. cleanup_missing rules) app

  -- `ApplyConfig`: the fields of the new configuration, and its rules before they are indexed.
  unfoldable pub apply_config : Settings → List RuleConfig → Run w (Unit {0})
  unfolding cleanup_missing with_rules
  apply_config settings input app =
      let fresh = with_rules w.unicode settings input in
      cleanup_missing app.settings.rules (record app {
        settings = record fresh {
          has_dispatcher = app.settings.has_dispatcher;
          has_producer = app.settings.has_producer;
        };
      })

  -- `NewManager`, with no queue producer.
  unfoldable pub new_manager :
      Settings → List RuleConfig → w.store.Backend → w.Outbox → w.Clock → App w
  unfolding with_rules new_engine
  new_manager settings input backend outbox clock = record {
    settings = record (with_rules w.unicode settings input) { has_producer = false };
    engine = new_engine;
    backend = backend;
    outbox = outbox;
    clock = clock;
  }
