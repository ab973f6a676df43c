-- ===== src/Tests/MergeRuns.antt =====
-- The merge of configuration files at concrete inputs.
use malert.Tests.ConfigRuns.{sample_config}
use malert.Config.MergeFiles.{ConfigMergeHints, merge_config}
use malert.Config.Guards.{merge_config-guards}
use malert.Config.MergeNotify.{merge_notify_config, merge_ui_config}
use malert.Base.{◌≡◌, refl, true, false, none, some}

-- A file that only turns the section ui on.
abbrev ui_hints : ConfigMergeHints
ui_hints = record {
  notify = record {
    repeat = some false;
    repeat_per_channel = none;
    on_pending = none;
    queue = record { enabled = none; dlq = none };
    telegram = none;
    http = none;
    mattermost = none;
    jira = none;
    youtrack = none;
  };
  ui = record { enabled = some true; basic_enabled = none };
}

merge_config-guards_example :
    ((merge_config sample_config sample_config ui_hints).notify
      ≡ merge_notify_config sample_config.notify sample_config.notify ui_hints.notify)
    × ((merge_config sample_config sample_config ui_hints).ui
        ≡ merge_ui_config sample_config.ui sample_config.ui ui_hints.ui)
merge_config-guards_example = merge_config-guards sample_config sample_config ui_hints

-- An explicit false overrides a true of an earlier file.
repeat_run : (merge_config sample_config sample_config ui_hints).notify.repeat ≡ false
unfolding merge_config
repeat_run = refl
