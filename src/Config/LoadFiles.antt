-- ===== src/Config/LoadFiles.antt =====
-- internal/config/config.go: a configuration is read from one file, or from the files of a directory,
-- which are merged in the order of their names. The files, TOML and the five patterns of
-- unsupported syntax are parameters.
use malert.Permanent.{GoError, plain, wrapped}
use malert.Base.{
  Assoc, lookup, Text, codes, text_eq, Unicode, to_lower, ◌⊎◌, inl, inr, Bool, not, Option, none,
  some, List, [], ◌∷◌, ◌++◌, if◌then◌else◌,
}
use malert.Config.Service.{ServiceConfig, IngestConfig, LogConfig, UiConfig, Config}
use malert.Config.Rule.{RuleConfig}
use malert.Config.Notify.{NotifyConfig}
use malert.Config.ValidateNotify.{is_blank}
use malert.Engine.Key.{sort_texts}
use malert.Engine.Run.{step}
use malert.Config.MergeFiles.{ConfigMergeHints, merge_config}

-- `rawConfig`: the rules are a map from their names to their bodies, which have a name of their own.
pub record RawConfig : Type 0 where
  pub service : ServiceConfig
  pub log : LogConfig
  pub ingest : IngestConfig
  pub notify : NotifyConfig
  pub ui : UiConfig
  pub rule : Assoc RuleConfig

-- What a file of a directory is.
pub record DirEntry : Type 0 where
  pub name : Text
  pub is_dir : Bool

pub record ConfigWorld : Type 0 where
  pub read_dir : Text → GoError ⊎ List DirEntry
  pub read_file : Text → GoError ⊎ Text
  pub join_path : Text → Text → Text
  pub ext : Text → Text
  pub unmarshal : Text → GoError ⊎ RawConfig
  pub unmarshal_hints : Text → GoError ⊎ ConfigMergeHints
  pub legacy_rule_array : Text → Bool
  pub unsupported_state : Text → Bool
  pub unsupported_ingest_nats_fixed_keys : Text → Bool
  pub unsupported_notify_queue_url : Text → Bool
  pub unsupported_notify_queue_dlq_table : Text → Bool
  pub unicode : Unicode

abbrev pub keys_of : {A : Type 0} → Assoc A → List Text
keys_of [] = []
keys_of ((key, a) ∷ rest) = key ∷ keys_of rest

-- The rule of a name, with the name that the table's key gives it.
unfoldable pub named_rule : Text → Option RuleConfig → GoError ⊎ Option RuleConfig
named_rule name none = inr none
named_rule name (some body) =
    if not (is_blank body.name)
    then inl (plain (codes "rule." ++ (name ++ codes ".name is not supported")))
    else inr (some (record body { name = name }))

unfoldable pub add_rule :
    GoError ⊎ Option RuleConfig → GoError ⊎ List RuleConfig → GoError ⊎ List RuleConfig
add_rule (inl e) rest = inl e
add_rule (inr none) rest = rest
add_rule (inr (some rule)) (inl e) = inl e
add_rule (inr (some rule)) (inr rules) = inr (rule ∷ rules)

-- The loop of `normalizeRawConfig` over the sorted names.
unfoldable pub named_rules : Assoc RuleConfig → List Text → GoError ⊎ List RuleConfig
unfolding lookup named_rule add_rule
named_rules raw [] = inr []
named_rules raw (name ∷ names) =
    add_rule (named_rule name (lookup name raw)) (named_rules raw names)

abbrev pub with_raw_rules : RawConfig → GoError ⊎ List RuleConfig → GoError ⊎ Config
with_raw_rules raw (inl e) = inl e
with_raw_rules raw (inr rules) = inr (record {
  service = raw.service;
  log = raw.log;
  ingest = raw.ingest;
  notify = raw.notify;
  ui = raw.ui;
  rule = rules;
})

-- `normalizeRawConfig`.
unfoldable pub normalize_raw_config : RawConfig → GoError ⊎ Config
unfolding named_rules sort_texts
normalize_raw_config raw = with_raw_rules raw (named_rules raw.rule (sort_texts (keys_of raw.rule)))

-- An error in the file of a path gets a prefix with the path.
unfoldable pub file_error : {A : Type 0} → Text → Text → GoError ⊎ A → GoError ⊎ A
file_error step path (inl e) = inl (wrapped (step ++ (path ++ codes ": ")) e)
file_error step path (inr a) = inr a

unfoldable pub then_load : {A B : Type 0} → GoError ⊎ A → (A → GoError ⊎ B) → GoError ⊎ B
then_load (inl e) next = inl e
then_load (inr a) next = next a

module _ (w : ConfigWorld) where
  -- `rejectUnsupportedSyntax`.
  unfoldable pub reject_unsupported_syntax : Text → GoError ⊎ Text
  reject_unsupported_syntax body =
      if w.legacy_rule_array body
      then inl (plain (codes "legacy [[rule]] format is not supported"))
      else if w.unsupported_state body
      then inl (plain (codes "state configuration is not supported"))
      else if w.unsupported_ingest_nats_fixed_keys body
      then inl (
          plain
            (codes "ingest.nats.subject/stream/consumer_name/deliver_group are fixed in runtime"))
      else if w.unsupported_notify_queue_url body
      then inl (plain (codes "notify.queue.url is not supported"))
      else if w.unsupported_notify_queue_dlq_table body
      then inl (plain (codes "[notify.queue.dlq] section is not supported"))
      else inr body

  -- The decoding of one file's text.
  unfoldable pub decode_body : Text → GoError ⊎ Config
  unfolding reject_unsupported_syntax then_load normalize_raw_config
  decode_body body =
      then_load (reject_unsupported_syntax body)
        (λ same. then_load (w.unmarshal same) normalize_raw_config)

  -- `loadFile`.
  unfoldable pub load_file : Text → GoError ⊎ Config
  unfolding file_error then_load decode_body
  load_file path =
      then_load (file_error (codes "read config file ") path (w.read_file path))
        (λ body. file_error (codes "decode config file ") path (decode_body body))

  -- The hints of a file that was decoded.
  unfoldable pub with_hints : Text → Text → Config → GoError ⊎ (Config × ConfigMergeHints)
  unfolding file_error then_load
  with_hints path body cfg =
      then_load (file_error (codes "decode merge hints ") path (w.unmarshal_hints body))
        (λ hints. inr (cfg, hints))

  -- `loadFileForMerge`.
  unfoldable pub load_file_for_merge : Text → GoError ⊎ (Config × ConfigMergeHints)
  unfolding file_error then_load decode_body with_hints
  load_file_for_merge path =
      then_load (file_error (codes "read config file ") path (w.read_file path)) (λ body.
        then_load (file_error (codes "decode config file ") path (decode_body body))
          (with_hints path body))

  -- The files of a directory that are read.
  unfoldable pub toml_files : Text → List DirEntry → List Text
  unfolding to_lower
  toml_files dir [] = []
  toml_files dir (entry ∷ entries) =
      let rest = toml_files dir entries in
      if entry.is_dir
      then rest
      else if not (text_eq (to_lower w.unicode (w.ext entry.name)) (codes ".toml"))
      then rest
      else w.join_path dir entry.name ∷ rest

  -- The loop over the files.
  unfoldable pub merge_files : Config → List Text → GoError ⊎ Config
  unfolding load_file_for_merge merge_config then_load
  merge_files merged [] = inr merged
  merge_files merged (file ∷ files) =
      then_load (load_file_for_merge file)
        (λ part. merge_files (merge_config merged part.0 part.1) files)

  -- What follows the search for files; `empty` is Config{}.
  unfoldable pub load_files : Config → Text → List Text → GoError ⊎ Config
  unfolding merge_files sort_texts
  load_files empty dir [] = inl (plain (codes "no .toml files found in " ++ dir))
  load_files empty dir (file ∷ files) = merge_files empty (sort_texts (file ∷ files))

  -- `loadDir`.
  unfoldable pub load_dir : Config → Text → GoError ⊎ Config
  unfolding file_error then_load toml_files load_files
  load_dir empty dir =
      then_load (file_error (codes "read config dir ") dir (w.read_dir dir))
        (λ entries. load_files empty dir (toml_files dir entries))
