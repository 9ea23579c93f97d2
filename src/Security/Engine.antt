-- ===== src/Security/Engine.antt =====
-- security_toolkit/src/core/engine.py: the scan engine. The thread pool completes the submitted
-- plugins in some order, which is the argument `completed`; logging is left out.
pub mod Selection
pub mod Collection
pub mod Statuses
use csc512_distributed_syste.Prelude.{
  ℕ, zero, suc, ◌≡◌, Bool, true, false, not, Option, none, some, List, [], ◌∷◌, ◌++◌, map, length,
  if◌then◌else◌, member, nat_eq, ◌==◌,
}
use csc512_distributed_syste.Prelude.Dict.{Dict, get, put, keys}
use csc512_distributed_syste.Prelude.Text.{Text, codes, text_eq, decimal}
use csc512_distributed_syste.Security.Finding.{Finding}
use csc512_distributed_syste.Security.Report.{
  ScanMode, source, runtime, full, Status, running, success, failed, skipped, Execution, ScanReport,
  deduplicate, sort_by_severity,
}
use csc512_distributed_syste.Security.Plugin.{TargetProfile, Plugin, Attempt, ok, raised, mode_eq}

unfoldable pub mode_text : ScanMode → Text
mode_text source = codes "source"
mode_text runtime = codes "runtime"
mode_text full = codes "full"

-- `str(path or image or pid or service_url)`: an empty text and the number 0 count as absent.
unfoldable pub or_else : Option Text → Text → Text
or_else none other = other
or_else (some []) other = other
or_else (some (c ∷ s)) other = c ∷ s

unfoldable pub pid_or_else : Option ℕ → Text → Text
pid_or_else none other = other
pid_or_else (some zero) other = other
pid_or_else (some (suc n)) other = decimal (suc n)

-- The last operand is printed as it is, also where it is empty or None.
unfoldable pub url_text : Option Text → Text
url_text none = codes "None"
url_text (some url) = url

unfoldable pub target_text : TargetProfile → Text
unfolding or_else pid_or_else url_text
target_text t = elim t.path [
  | some path ↦ path
  | none ↦ or_else t.image (pid_or_else t.pid (url_text t.service_url))
]

-- `_select_plugins`: an exception of `can_handle` counts as False.
unfoldable pub select_plugins : TargetProfile → List Plugin → List Plugin
select_plugins profile [] = []
select_plugins profile (p ∷ ps) =
    let rest = select_plugins profile ps in
    if not (member profile.mode p.scan_modes)
    then rest
    else elim (p.can_handle profile) [ ok true ↦ p ∷ rest | ok false ↦ rest | raised e ↦ rest ]

unfoldable pub not_for_mode : TargetProfile → Text
unfolding mode_text
not_for_mode profile = codes "Plugin not applicable for " ++ mode_text profile.mode ++ codes " mode"

unfoldable pub not_handled : Text
not_handled = codes "Plugin.can_handle() returned False for target"

unfoldable pub skip : Text → Execution
skip reason = record { status = skipped; findings_count = 0; error = none; reason = some reason }

-- One turn of the loop over all plugins in `run`.
unfoldable pub skip_step :
    TargetProfile → List Plugin → Dict Text Execution → Plugin → Dict Text Execution
unfolding skip
skip_step profile applicable statuses p =
    if not (member profile.mode p.scan_modes)
    then put p.name (skip (not_for_mode profile)) statuses
    else if not (member p.ident (map (λ q. q.ident) applicable))
    then put p.name (skip not_handled) statuses
    else statuses

unfoldable pub skip_loop :
    TargetProfile → List Plugin → Dict Text Execution → List Plugin → Dict Text Execution
unfolding skip_step
skip_loop profile applicable statuses [] = statuses
skip_loop profile applicable statuses (p ∷ ps) =
    skip_loop profile applicable (skip_step profile applicable statuses p) ps

unfoldable pub start : Execution
start = record { status = running; findings_count = 0; error = none; reason = none }

unfoldable pub start_loop : Dict Text Execution → List Plugin → Dict Text Execution
unfolding start
start_loop statuses [] = statuses
start_loop statuses (p ∷ ps) = start_loop (put p.name start statuses) ps

unfoldable pub failure_message : Text → Text → Text
failure_message name error = codes "Plugin " ++ name ++ codes " failed: " ++ error

-- `plugin_status[name]["…"] = …`: every completed plugin was entered by `start_loop`.
unfoldable pub amend : Text → (Execution → Execution) → Dict Text Execution → Dict Text Execution
amend name change statuses = elim (get name statuses) [
  | none ↦ statuses
  | some entry ↦ put name (change entry) statuses
]

-- What the main thread collects while the futures complete.
pub record Progress : Type 0 where
  pub findings : List Finding
  pub errors : List Text
  pub statuses : Dict Text Execution

-- The loop's body for one completed future, whose result is `result`.
unfoldable pub complete : Progress → Plugin → Attempt (List Finding) → Progress
unfolding amend
complete s p (ok found) = record {
  findings = s.findings ++ found;
  errors = s.errors;
  statuses =
      amend p.name (λ x. record x { status = success; findings_count = length found }) s.statuses;
}
complete s p (raised error) = record {
  findings = s.findings;
  errors = s.errors ++ failure_message p.name error ∷ [];
  statuses = amend p.name (λ x. record x { status = failed; error = some error }) s.statuses;
}

unfoldable pub complete_loop : TargetProfile → Progress → List Plugin → Progress
unfolding complete
complete_loop profile s [] = s
complete_loop profile s (p ∷ ps) = complete_loop profile (complete s p (p.execute profile)) ps

unfoldable pub execute_parallel :
    List Plugin → List Plugin → TargetProfile → ScanReport → ScanReport
unfolding start_loop complete_loop
execute_parallel plugins completed profile report =
    let s =
      complete_loop profile
        (record {
          findings = report.findings;
          errors = report.errors;
          statuses = start_loop [] plugins;
        })
        completed in
    record report { findings = s.findings; errors = s.errors; plugin_execution = s.statuses }

-- The statuses of the skipped plugins, under names that have no status yet.
unfoldable pub merge_loop : Dict Text Execution → Dict Text Execution → Dict Text Execution
merge_loop execution [] = execution
merge_loop execution ((name, status) ∷ statuses) =
    merge_loop (if member name (keys execution) then execution else put name status execution)
      statuses

unfoldable pub new_report : TargetProfile → Text → ScanReport
unfolding target_text
new_report profile started = record {
  target = target_text profile;
  mode = profile.mode;
  started_at = started;
  finished_at = [];
  findings = [];
  errors = [];
  metadata = [];
  plugin_execution = [];
}

-- The rest of `run`, once the applicable plugins and the statuses of the others are known.
unfoldable pub run_selected :
    TargetProfile → List Plugin → Text → ScanReport → Dict Text Execution → List Plugin → ScanReport
unfolding execute_parallel merge_loop
run_selected profile completed finished report statuses [] = record report {
  errors = report.errors ++ codes "No applicable plugins found for this target." ∷ [];
  plugin_execution = statuses;
  finished_at = finished;
}
run_selected profile completed finished report statuses (p ∷ ps) =
    let done = execute_parallel (p ∷ ps) completed profile report in
    let merged = record done { plugin_execution = merge_loop done.plugin_execution statuses } in
    record (sort_by_severity (deduplicate merged)) { finished_at = finished }

-- `run`: the plugins complete in the order `completed`; the clock reads `started` and `finished`.
unfoldable pub run : List Plugin → TargetProfile → List Plugin → Text → Text → ScanReport
unfolding select_plugins skip_loop run_selected new_report
run plugins profile completed started finished =
    let applicable = select_plugins profile plugins in
    run_selected profile completed finished (new_report profile started)
      (skip_loop profile applicable [] plugins) applicable
