-- ===== src/Security/Json/Grouping.antt =====
-- What the printed report says of the findings and of the plugins.
use csc512_distributed_syste.Prelude.{
  ℕ, suc, ◌+◌, ◌≡◌, refl, sym, ◌∙◌, Bool, true, false, List, [], ◌∷◌, ◌++◌, map, length,
  length-append, append-nil, append_assoc, select, ◌==◌, if◌then◌else◌, arith, Bool-cases, inl, inr,
  eq_self,
}
use csc512_distributed_syste.Prelude.Dict.{Dict, put, get_or, get, get-put}
use csc512_distributed_syste.Prelude.Text.{Text, text_eq, text_beq_iff}
use csc512_distributed_syste.Security.Finding.{Finding, FindingEntry, to_dict}
use csc512_distributed_syste.Security.Report.{
  Execution, running, success, failed, skipped, ScanReport,
}
use csc512_distributed_syste.Security.Json.{
  category_of, group_loop, PluginLists, file_plugin, plugin_loop, no_plugins, to_json, reason_text,
}

get_or-put :
    (j k : Text) (w : List FindingEntry) (d : Dict Text (List FindingEntry))
    → get_or k [] (put j w d) ≡ (if j == k then w else get_or k [] d)
unfolding get_or
get_or-put j k w d = ground (arith, get-put j k w d)

abbrev entries : Bool → Text → List Finding → List FindingEntry
entries include_raw cat fs = map (to_dict include_raw) (select (λ f. category_of f == cat) fs)

get_or-group_loop :
    (include_raw : Bool) (cat : Text) (grouped : Dict Text (List FindingEntry)) (fs : List Finding)
    → get_or cat [] (group_loop include_raw grouped fs)
      ≡ get_or cat [] grouped ++ entries include_raw cat fs
unfolding group_loop select
get_or-group_loop include_raw cat grouped [] = sym (append-nil (get_or cat [] grouped))
get_or-group_loop include_raw cat grouped (f ∷ fs) =
    get_or-group_loop include_raw cat
      (put (category_of f) (get_or (category_of f) [] grouped ++ to_dict include_raw f ∷ [])
        grouped)
      fs
    ∙ rw
        (get_or-put (category_of f) cat
          (get_or (category_of f) [] grouped ++ to_dict include_raw f ∷ []) grouped)
        (elim (Bool-cases (category_of f == cat)) [
          | inl h ↦ rw ((text_beq_iff (category_of f) cat).0 h) (
              rw (eq_self cat)
                (append_assoc (get_or cat [] grouped) (to_dict include_raw f ∷ []) _))
          | inr h ↦ rw h refl
        ])

-- Under each category stand the entries of the findings of this category, in the order of the report;
-- a finding without a category is filed under other.
pub findings_by_category_lem :
    (include_raw : Bool) (r : ScanReport) (cat : Text)
    → get_or cat [] (to_json include_raw r).findings_by_category
      ≡ map (to_dict include_raw) (select (λ f. category_of f == cat) r.findings)
unfolding to_json
findings_by_category_lem include_raw r cat =
    get_or-group_loop include_raw cat [] r.findings ∙ unfold get_or get in refl

-- The plugin still runs.
abbrev pub is_running : Text × Execution → Bool
is_running e = elim e.1.status [
  | running ↦ true
  | success ↦ false
  | failed ↦ false
  | skipped ↦ false
]

abbrev filed : PluginLists → ℕ
filed lists = length lists.executed + length lists.failed + length lists.skipped

filed-file_plugin :
    (lists : PluginLists) (name : Text) (x : Execution)
    → filed (file_plugin lists name x)
      ≡ (if is_running (name, x) then filed lists else suc (filed lists))
unfolding file_plugin
filed-file_plugin lists name x = ground (
  arith,
  length-append lists.executed (record { plugin = name; findings_count = x.findings_count } ∷ []),
  length-append lists.failed (record { plugin = name; error = x.error } ∷ []),
  length-append lists.skipped (record { plugin = name; reason = reason_text x.reason } ∷ []),
)

filed-plugin_loop :
    (lists : PluginLists) (d : Dict Text Execution)
    → filed (plugin_loop lists d) + length (select is_running d) ≡ filed lists + length d
unfolding plugin_loop select
filed-plugin_loop lists [] = omega arith
filed-plugin_loop lists ((name, x) ∷ d) =
    let h = filed-plugin_loop (file_plugin lists name x) d in
    let g = filed-file_plugin lists name x in
    elim (Bool-cases (is_running (name, x))) [
      | inl r ↦ rw r (omega (arith, h, rw r at g))
      | inr r ↦ rw r (omega (arith, h, rw r at g))
    ]

-- Every registered plugin is counted once: as executed, as failed or as skipped, unless it still runs.
total_registered_lem :
    (include_raw : Bool) (r : ScanReport)
    → (to_json include_raw r).executed_count
        + (to_json include_raw r).failed_count
        + (to_json include_raw r).skipped_count
        + length (select is_running r.plugin_execution)
      ≡ (to_json include_raw r).total_registered
unfolding to_json
total_registered_lem include_raw r = omega (arith, filed-plugin_loop no_plugins r.plugin_execution)
