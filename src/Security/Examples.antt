-- ===== src/Security/Examples.antt =====
-- Concrete scans, on which the properties of the security toolkit are evaluated.

use mathlib.Core.List.{Memᴰ, Permᴰ}
use csc512_distributed_syste.Prelude.{
  all, ℕ, ◌≡◌, refl, true, false, none, some, List, [], ◌∷◌, ◌++◌, map, any, member, select, ◌==◌,
  nat_eq, Distinct, is_distinct→Distinct, is_distinct, ap, sym, leb,
}
use csc512_distributed_syste.Security.Json.{category_of, to_json}
use csc512_distributed_syste.Security.Json.Grouping.{findings_by_category_lem}
use csc512_distributed_syste.Prelude.Dict.{get_or, get}
use csc512_distributed_syste.Prelude.Text.{is_space, Text, codes, text_eq, text_beq}
use csc512_distributed_syste.Security.Severity
use csc512_distributed_syste.Security.Severity.{
  NormalizedSeverity, info, low, medium, high, critical, normalize_severity,
}
use csc512_distributed_syste.Security.Finding.{Finding, to_dict, compute_fingerprint}
use csc512_distributed_syste.Security.Finding.Fingerprints.{fingerprint-collision}
use csc512_distributed_syste.Security.Report.{
  source, ScanReport, deduplicate, sort_by_severity, severity_counts, verdict, verdict_of,
}
use csc512_distributed_syste.Security.Report.Dedup.{
  pick, find, deduplicate-Distinct, deduplicate-pick,
}
use csc512_distributed_syste.Security.Report.Summary.{
  tally, buckets, sort_by_severity_lem, severity_counts_lem,
}
use csc512_distributed_syste.Security.Report.Outcome.{verdict-deduplicate}
use csc512_distributed_syste.Security.Plugin.{
  TargetProfile, Plugin, PluginClass, Attempt, ok, raised, register_all, instantiate_plugins,
  mode_eq,
}
use csc512_distributed_syste.Security.Plugin.Registry.{
  IsHonest, IsRegistered, instantiate_plugins-IsRegistered,
}
use csc512_distributed_syste.Security.Engine.{select_plugins, run, start}
use csc512_distributed_syste.Security.Engine.Collection.{harvest}
use csc512_distributed_syste.Security.Engine.Statuses.{expected, verdict-run, run-expected}
use csc512_distributed_syste.Security.Profiler.{
  Directory, file, dir, end, item, denied, language_indicators, detect_languages, has_file,
}
use csc512_distributed_syste.Security.Profiler.Visible.{
  visible, indicated, detect_languages_iff, has_file_iff,
}
use csc512_distributed_syste.Security.Profiler.Target.{World, no_port, profile_target, ports_of}
use csc512_distributed_syste.Security.Profiler.Target.Ports.{printed, ports_of-profile_target}
use csc512_distributed_syste.Prelude.Sort.{sorted}

abbrev a_finding : NormalizedSeverity → Text → Finding
a_finding s print = record {
  tool = codes "semgrep";
  rule_id = codes "sql-injection";
  title = codes "Injection";
  description = [];
  severity = s;
  file_path = none;
  line = 0;
  category = codes "sast";
  raw = [];
  fingerprint = print;
}

abbrev two_findings : List Finding
two_findings = a_finding low (codes "f1") ∷ a_finding high (codes "f1") ∷ []

abbrev a_report : ScanReport
a_report = record {
  target = codes "app";
  mode = source;
  started_at = codes "t0";
  finished_at = [];
  findings = two_findings;
  errors = [];
  metadata = [];
  plugin_execution = (codes "semgrep", start) ∷ [];
}

deduplicate-pick_example :
    find (codes "f1") (deduplicate a_report).findings ≡ pick (codes "f1") two_findings
deduplicate-pick_example = deduplicate-pick a_report (codes "f1")

deduplicate-Distinct_example : Distinct (map (λ f. f.fingerprint) (deduplicate a_report).findings)
deduplicate-Distinct_example = deduplicate-Distinct a_report

verdict-deduplicate_example : verdict (sort_by_severity (deduplicate a_report)) ≡ verdict a_report
verdict-deduplicate_example = verdict-deduplicate a_report

sort_by_severity_lem_example :
    (sort_by_severity a_report).findings
    ≡ buckets (critical ∷ high ∷ medium ∷ low ∷ info ∷ []) two_findings
sort_by_severity_lem_example = sort_by_severity_lem a_report

severity_counts_lem_example :
    severity_counts a_report
    ≡ (Severity.name info, tally info two_findings)
      ∷ (Severity.name low, tally low two_findings)
      ∷ (Severity.name medium, tally medium two_findings)
      ∷ (Severity.name high, tally high two_findings)
      ∷ (Severity.name critical, tally critical two_findings)
      ∷ []
severity_counts_lem_example = severity_counts_lem a_report

-- A stand-in for the hash.
abbrev echo : Text → Text
echo s = s

fingerprint-collision_example :
    compute_fingerprint echo (record (a_finding low []) {
      rule_id = codes "r" ++ codes "|None|0|" ++ codes "p";
      title = codes "t";
    })
    ≡ compute_fingerprint echo (record (a_finding low []) {
      rule_id = codes "r";
      title = codes "p" ++ codes "|None|0|" ++ codes "t";
    })
fingerprint-collision_example =
    fingerprint-collision echo (a_finding low []) (codes "r") (codes "p") (codes "t") refl refl

abbrev a_plugin : Text → Attempt (List Finding) → ℕ → Plugin
a_plugin name outcome n = record {
  ident = n;
  name = name;
  scan_modes = source ∷ [];
  can_handle = λ profile. ok true;
  execute = λ profile. outcome;
}

abbrev a_class : Text → Attempt (List Finding) → PluginClass
a_class name outcome = record {
  name = name;
  has_bases = true;
  is_abstract = false;
  construct = λ n. ok (a_plugin name outcome n);
}

abbrev ok_value {ℓ} : {A : Type ℓ} → A → Attempt A → A
ok_value a (ok b) = b
ok_value a (raised e) = a

a_class-IsHonest :
    (name : Text) (outcome : Attempt (List Finding)) → IsHonest (a_class name outcome)
a_class-IsHonest name outcome n p h =
    let same : a_plugin name outcome n ≡ p = ap (ok_value p) h in
    (sym (ap (λ q. q.name) same), sym (ap (λ q. q.ident) same))

abbrev two_classes : List PluginClass
two_classes =
    a_class (codes "semgrep") (ok two_findings)
    ∷ a_class (codes "gitleaks") (raised (codes "boom"))
    ∷ []

instantiate_plugins-IsRegistered_example :
    IsRegistered (instantiate_plugins 0 (register_all [] two_classes))
instantiate_plugins-IsRegistered_example = instantiate_plugins-IsRegistered two_classes (
  a_class-IsHonest (codes "semgrep") (ok two_findings),
  (a_class-IsHonest (codes "gitleaks") (raised (codes "boom")), tt),
)

abbrev semgrep : Plugin
semgrep = a_plugin (codes "semgrep") (ok two_findings) 0

abbrev gitleaks : Plugin
gitleaks = a_plugin (codes "gitleaks") (raised (codes "boom")) 1

abbrev two_plugins : List Plugin
two_plugins = semgrep ∷ gitleaks ∷ []

two_plugins-IsRegistered : IsRegistered two_plugins
unfolding is_distinct member text_beq
two_plugins-IsRegistered = record {
  names = is_distinct→Distinct (codes "semgrep" ∷ codes "gitleaks" ∷ []) refl;
  idents = is_distinct→Distinct {A = ℕ} (0 ∷ 1 ∷ []) refl;
}

abbrev a_profile : TargetProfile
a_profile = record {
  mode = source;
  path = some (codes "app");
  image = none;
  pid = none;
  service_url = none;
  languages = [];
  has_docker = false;
  has_k8s = false;
  has_terraform = false;
  exposed_ports = [];
  metadata = [];
}

-- The second plugin completes first.
completed_backwards : Permᴰ (gitleaks ∷ semgrep ∷ []) (select_plugins a_profile two_plugins)
unfolding select_plugins member mode_eq
completed_backwards = Permᴰ.swap refl refl

verdict-run_example :
    verdict (run two_plugins a_profile (gitleaks ∷ semgrep ∷ []) (codes "t0") (codes "t1"))
    ≡ verdict_of (harvest a_profile (select_plugins a_profile two_plugins))
verdict-run_example =
    verdict-run two_plugins a_profile (gitleaks ∷ semgrep ∷ []) (codes "t0") (codes "t1")
      completed_backwards

run-expected_example :
    get
      (codes "gitleaks")
      (run two_plugins a_profile
        (gitleaks ∷ semgrep ∷ [])
        (codes "t0")
        (codes "t1")).plugin_execution
    ≡ some (expected a_profile gitleaks)
run-expected_example =
    run-expected two_plugins a_profile (gitleaks ∷ semgrep ∷ []) (codes "t0") (codes "t1")
      completed_backwards two_plugins-IsRegistered gitleaks (Memᴰ.tail (Memᴰ.head refl))

abbrev a_directory : Directory
a_directory =
    item (dir (codes "src") (item (file (codes "main.py")) end))
      (item (dir (codes ".git") denied) (item (file (codes "Dockerfile")) end))

detect_languages_iff_example :
    member (codes "python") (detect_languages a_directory)
    ≡ any (indicated language_indicators (codes "python")) (visible 3 a_directory)
detect_languages_iff_example = detect_languages_iff a_directory (codes "python")

has_file_iff_example :
    has_file a_directory (codes "Dockerfile" ∷ [])
    ≡ any (λ n. member n (codes "Dockerfile" ∷ [])) (visible 3 a_directory)
has_file_iff_example = has_file_iff a_directory (codes "Dockerfile" ∷ [])

abbrev exposed : List (ℕ × Text)
exposed = (8080, codes "tcp") ∷ (443, codes "tcp") ∷ []

abbrev a_world : World
a_world = record {
  resolve = λ path. path;
  list = λ path. some a_directory;
  inspect = λ image. some (printed exposed);
  url_port = λ url. no_port;
  url_scheme = λ url. codes "https";
}

ports_of-profile_target_example :
    ports_of (profile_target a_world none (some (codes "nginx")) none none)
    ≡ sorted leb (8080 ∷ 443 ∷ [])
unfolding all is_space
ports_of-profile_target_example =
    ports_of-profile_target a_world (codes "nginx") none exposed refl refl

findings_by_category_lem_example :
    get_or (codes "sast") [] (to_json true a_report).findings_by_category
    ≡ map (to_dict true) (select (λ f. category_of f == codes "sast") a_report.findings)
findings_by_category_lem_example = findings_by_category_lem true a_report (codes "sast")
