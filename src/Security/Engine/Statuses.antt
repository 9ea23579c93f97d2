-- ===== src/Security/Engine/Statuses.antt =====
-- What a whole run reports, whatever the order in which the plugins complete.

use mathlib.Core.List.Permᴰ
use mathlib.Core.List.{Memᴰ, Permᴰ}
use csc512_distributed_syste.Prelude.{
  ◌≡◌, refl, ap, ◌∙◌, Bool, true, false, none, some, List, [], ◌∷◌, map, any, arith, if◌then◌else◌,
  member, nat_eq, Distinct, inl, inr, Bool-cases,
}
use csc512_distributed_syste.Prelude.Dict.{Dict, get}
use csc512_distributed_syste.Prelude.Perms.{Memᴰ-perm, Distinct-perm, member-perm, perm-nil}
use csc512_distributed_syste.Prelude.Text.{Text, text_eq}
use csc512_distributed_syste.Security.Finding.{Finding}
use csc512_distributed_syste.Security.Report.{
  Execution, verdict, verdict_of, deduplicate, sort_by_severity, is_high,
}
use csc512_distributed_syste.Security.Report.Outcome.{verdict-deduplicate, verdict_of_tests}
use csc512_distributed_syste.Security.Plugin.{TargetProfile, Plugin, mode_eq}
use csc512_distributed_syste.Security.Plugin.Registry.{IsRegistered}
use csc512_distributed_syste.Security.Engine.{
  select_plugins, not_for_mode, not_handled, skip, skip_loop, start, start_loop, complete_loop,
  Progress, execute_parallel, run_selected, run, new_report,
}
use csc512_distributed_syste.Security.Engine.Selection.{
  applies, says_yes, Memᴰ-select_plugins, Distinct-select_plugins, member-select_plugins_iff,
  skipped_entry, or_option, get-skip_loop,
}
use csc512_distributed_syste.Security.Engine.Collection.{
  get-start_loop, get-start_loop_other, get-complete_loop_other, finish, get-complete_loop,
  get-merge_loop, harvest, findings-complete_loop, any-harvest-perm,
}

-- What the report should say of a plugin.
pub expected : TargetProfile → Plugin → Execution
expected profile p =
    if member profile.mode p.scan_modes
    then (if says_yes (p.can_handle profile)
        then finish (p.execute profile) start
        else skip not_handled)
    else skip (not_for_mode profile)

-- The progress at the end of `execute_parallel`.
abbrev collected : TargetProfile → List Plugin → List Plugin → Progress
collected profile selected completed =
    complete_loop profile (record { findings = []; errors = []; statuses = start_loop [] selected })
      completed

get-run_selected :
    (profile : TargetProfile) (completed : List Plugin) (started finished k : Text)
    (statuses : Dict Text Execution) (selected : List Plugin)
    → Permᴰ completed selected
    → get k
        (run_selected profile completed finished
          (new_report profile started)
          statuses
          selected).plugin_execution
      ≡ or_option (get k (collected profile selected completed).statuses) (get k statuses)
unfolding run_selected new_report
get-run_selected profile completed started finished k statuses [] done =
    rw (perm-nil done refl) (unfold complete_loop start_loop get in refl)
get-run_selected profile completed started finished k statuses (p ∷ ps) done =
    unfold deduplicate sort_by_severity execute_parallel in
    get-merge_loop k (collected profile (p ∷ ps) completed).statuses statuses

any-collected :
    (t : Finding → Bool) (profile : TargetProfile) (completed selected : List Plugin)
    → Permᴰ completed selected
    → any t (collected profile selected completed).findings ≡ any t (harvest profile selected)
any-collected t profile completed selected done =
    ap (any t) (findings-complete_loop profile _ completed) ∙ any-harvest-perm t profile done

verdict-run_selected :
    (profile : TargetProfile) (completed : List Plugin) (started finished : Text)
    (statuses : Dict Text Execution) (selected : List Plugin)
    → Permᴰ completed selected
    → verdict
        (run_selected profile completed finished (new_report profile started) statuses selected)
      ≡ verdict_of (harvest profile selected)
unfolding run_selected new_report
verdict-run_selected profile completed started finished statuses [] done = unfold verdict in refl
verdict-run_selected profile completed started finished statuses (p ∷ ps) done =
    unfold verdict execute_parallel deduplicate sort_by_severity in
    verdict-deduplicate (execute_parallel (p ∷ ps) completed profile (new_report profile started))
    ∙ verdict_of_tests _ (harvest profile (p ∷ ps))
        (any-collected (λ f. true) profile completed (p ∷ ps) done)
        (any-collected is_high profile completed (p ∷ ps) done)

module _ (plugins : List Plugin) (profile : TargetProfile) (completed : List Plugin)
    (started finished : Text) (done : Permᴰ completed (select_plugins profile plugins)) where
  -- Whatever the order in which the plugins complete, the verdict is that of the findings returned by
  -- the plugins that apply.
  pub verdict-run :
      verdict (run plugins profile completed started finished)
      ≡ verdict_of (harvest profile (select_plugins profile plugins))
  unfolding run
  verdict-run =
      verdict-run_selected profile completed started finished
        (skip_loop profile (select_plugins profile plugins) [] plugins)
        (select_plugins profile plugins) done

  module _ (registered : IsRegistered plugins) (p : Plugin) (m : Memᴰ p plugins) where
    abbrev selected : List Plugin
    selected = select_plugins profile plugins

    names : Distinct (map (λ q. q.name) completed)
    names =
        Distinct-perm (Permᴰ.map (λ q. q.name) (Permᴰ.symm done))
          (Distinct-select_plugins (λ q. q.name) profile plugins registered.names)

    submitted :
        applies profile p ≡ true
        → get p.name (collected profile selected completed).statuses
          ≡ some (finish (p.execute profile) start)
    submitted h =
        get-complete_loop profile p _ completed
          (Memᴰ-perm (Permᴰ.symm done) (Memᴰ-select_plugins profile plugins m h)) names
        ∙ rw (
            get-start_loop p.name [] selected
              (member-select_plugins_iff (λ q. q.name) profile p plugins m registered.names ∙ h))

    not_submitted :
        applies profile p ≡ false
        → get p.name (collected profile selected completed).statuses ≡ none
    unfolding get
    not_submitted h =
        let absent : member p.name (map (λ q. q.name) selected) ≡ false =
          member-select_plugins_iff (λ q. q.name) profile p plugins m registered.names ∙ h in
        get-complete_loop_other profile p.name _ completed
          (member-perm p.name (Permᴰ.map (λ q. q.name) done) ∙ absent)
        ∙ get-start_loop_other p.name [] selected absent

    expected-cases :
        or_option
          (get p.name (collected profile selected completed).statuses)
          (or_option (skipped_entry profile selected p) none)
        ≡ some (expected profile p)
    unfolding expected
    expected-cases = elim (Bool-cases (applies profile p)) [
      | inl h ↦ rw (submitted h) (ground arith)
      | inr h ↦ rw (not_submitted h) (
          ground
            (arith, member-select_plugins_iff (λ q. q.ident) profile p plugins m registered.idents))
    ]

    -- Whatever the order in which the plugins complete, the report has for each registered plugin the
    -- status that is expected: skipped with the reason, or the outcome of its own call.
    pub run-expected :
        get p.name (run plugins profile completed started finished).plugin_execution
        ≡ some (expected profile p)
    unfolding run get
    run-expected =
        get-run_selected profile completed started finished p.name
          (skip_loop profile selected [] plugins) selected done
        ∙ rw (get-skip_loop profile selected p [] plugins m registered.names) expected-cases
