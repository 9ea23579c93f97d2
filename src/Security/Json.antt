-- ===== src/Security/Json.antt =====
-- `to_json` of security_toolkit/src/core/models.py: the data that is printed. An execution entry comes
-- from the engine, whose failed entries have an error.
pub mod Grouping
use csc512_distributed_syste.Prelude.{
  ℕ, Bool, true, false, Option, none, some, List, [], ◌∷◌, ◌++◌, length,
}
use csc512_distributed_syste.Prelude.Dict.{Dict, put, get_or}
use csc512_distributed_syste.Prelude.Text.{Text, codes, text_eq}
use csc512_distributed_syste.Security.Finding.{Finding, FindingEntry, to_dict}
use csc512_distributed_syste.Security.Report.{
  ScanMode, Execution, Status, running, success, failed, skipped, ScanReport, Verdict, verdict,
  severity_counts,
}

-- `f.category or "other"`
unfoldable pub category_of : Finding → Text
category_of f = elim f.category [ [] ↦ codes "other" | c ∷ rest ↦ c ∷ rest ]

unfoldable pub group_loop :
    Bool → Dict Text (List FindingEntry) → List Finding → Dict Text (List FindingEntry)
unfolding category_of
group_loop include_raw grouped [] = grouped
group_loop include_raw grouped (f ∷ fs) =
    let cat = category_of f in
    group_loop include_raw (put cat (get_or cat [] grouped ++ to_dict include_raw f ∷ []) grouped)
      fs

-- The entries of the three lists of plugins.
pub record Executed : Type 0 where
  pub plugin : Text
  pub findings_count : ℕ

pub record Failed : Type 0 where
  pub plugin : Text
  pub error : Option Text

pub record Skipped : Type 0 where
  pub plugin : Text
  pub reason : Text

pub record PluginLists : Type 0 where
  pub executed : List Executed
  pub failed : List Failed
  pub skipped : List Skipped

unfoldable pub reason_text : Option Text → Text
reason_text none = codes "Unknown reason"
reason_text (some reason) = reason

-- One turn of the loop over the executions; a plugin that is still running is in no list.
unfoldable pub file_plugin : PluginLists → Text → Execution → PluginLists
unfolding reason_text
file_plugin lists name x = elim x.status [
  | running ↦ lists
  | success ↦ record lists {
    executed = lists.executed ++ (record { plugin = name; findings_count = x.findings_count }) ∷ [];
  }
  | failed ↦ record lists {
    failed = lists.failed ++ (record { plugin = name; error = x.error }) ∷ [];
  }
  | skipped ↦ record lists {
    skipped = lists.skipped ++ (record { plugin = name; reason = reason_text x.reason }) ∷ [];
  }
]

unfoldable pub plugin_loop : PluginLists → Dict Text Execution → PluginLists
unfolding file_plugin
plugin_loop lists [] = lists
plugin_loop lists ((name, x) ∷ rest) = plugin_loop (file_plugin lists name x) rest

pub record JsonReport : Type 0 where
  pub target : Text
  pub mode : ScanMode
  pub started_at : Text
  pub finished_at : Text
  pub verdict : Verdict
  pub total_findings : ℕ
  pub by_severity : Dict Text ℕ
  pub total_registered : ℕ
  pub executed_count : ℕ
  pub failed_count : ℕ
  pub skipped_count : ℕ
  pub plugins : PluginLists
  pub findings_by_category : Dict Text (List FindingEntry)
  pub errors : List Text

abbrev pub no_plugins : PluginLists
no_plugins = record { executed = []; failed = []; skipped = [] }

unfoldable pub to_json : Bool → ScanReport → JsonReport
unfolding group_loop plugin_loop
to_json include_raw r =
    let lists = plugin_loop no_plugins r.plugin_execution in
    record {
      target = r.target;
      mode = r.mode;
      started_at = r.started_at;
      finished_at = r.finished_at;
      verdict = verdict r;
      total_findings = length r.findings;
      by_severity = severity_counts r;
      total_registered = length r.plugin_execution;
      executed_count = length lists.executed;
      failed_count = length lists.failed;
      skipped_count = length lists.skipped;
      plugins = lists;
      findings_by_category = group_loop include_raw [] r.findings;
      errors = r.errors;
    }
