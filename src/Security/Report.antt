-- ===== src/Security/Report.antt =====
-- security_toolkit/src/core/models.py: the scan report, its deduplication, order and summaries.
pub mod Dedup
pub mod Summary
pub mod Outcome
use csc512_distributed_syste.Prelude.{
  ℕ, suc, ◌≡◌, Bool, true, false, Option, none, some, List, [], ◌∷◌, ◌++◌, map, length, any, ltb,
  leb, if◌then◌else◌,
}
use csc512_distributed_syste.Prelude.Dict.{Dict, get, put, get_or, values}
use csc512_distributed_syste.Prelude.Sort.{sorted}
use csc512_distributed_syste.Prelude.Text.{Text, codes, text_eq}
use csc512_distributed_syste.Security.Value.{Value}
use csc512_distributed_syste.Security.Severity
use csc512_distributed_syste.Security.Severity.{
  NormalizedSeverity, info, low, medium, high, critical,
}
use csc512_distributed_syste.Security.Finding.{Finding, FindingEntry, to_dict}

pub data ScanMode : Type 0 where
  source runtime full : ScanMode

-- The values of the key "status" of a plugin's execution entry.
pub data Status : Type 0 where
  running success failed skipped : Status

pub record Execution : Type 0 where
  pub status : Status
  pub findings_count : ℕ
  pub error : Option Text
  pub reason : Option Text

pub record ScanReport : Type 0 where
  pub target : Text
  pub mode : ScanMode
  pub started_at : Text
  pub finished_at : Text
  pub findings : List Finding
  pub errors : List Text
  pub metadata : Dict Text Value
  pub plugin_execution : Dict Text Execution

abbrev pub severity_of : Finding → ℕ
severity_of f = Severity.value f.severity

-- One turn of the loop of `deduplicate`.
unfoldable pub dedup_step : Dict Text Finding → Finding → Dict Text Finding
dedup_step seen f = elim (get f.fingerprint seen) [
  | none ↦ put f.fingerprint f seen
  | some existing ↦
      if ltb (severity_of existing) (severity_of f) then put f.fingerprint f seen else seen
]

unfoldable pub dedup_loop : Dict Text Finding → List Finding → Dict Text Finding
unfolding dedup_step
dedup_loop seen [] = seen
dedup_loop seen (f ∷ fs) = dedup_loop (dedup_step seen f) fs

unfoldable pub deduplicate : ScanReport → ScanReport
unfolding dedup_loop
deduplicate r = record r { findings = values (dedup_loop [] r.findings) }

-- `key=lambda f: f.severity, reverse=True`
abbrev pub more_severe : Finding → Finding → Bool
more_severe f g = leb (severity_of g) (severity_of f)

unfoldable pub sort_by_severity : ScanReport → ScanReport
sort_by_severity r = record r { findings = sorted more_severe r.findings }

unfoldable pub zero_counts : Dict Text ℕ
zero_counts =
    (Severity.name info, 0)
    ∷ (Severity.name low, 0)
    ∷ (Severity.name medium, 0)
    ∷ (Severity.name high, 0)
    ∷ (Severity.name critical, 0)
    ∷ []

unfoldable pub count_loop : Dict Text ℕ → List Finding → Dict Text ℕ
count_loop counts [] = counts
count_loop counts (f ∷ fs) =
    let key = Severity.name f.severity in count_loop (put key (suc (get_or key 0 counts)) counts) fs

unfoldable pub severity_counts : ScanReport → Dict Text ℕ
unfolding zero_counts count_loop
severity_counts r = count_loop zero_counts r.findings

pub data Verdict : Type 0 where
  fail warn pass : Verdict

abbrev pub is_high : Finding → Bool
is_high f = leb (Severity.value high) (severity_of f)

unfoldable pub verdict_of : List Finding → Verdict
verdict_of fs = if any is_high fs then fail else elim fs [ [] ↦ pass | _ ∷ _ ↦ warn ]

unfoldable pub verdict : ScanReport → Verdict
unfolding verdict_of
verdict r = verdict_of r.findings
