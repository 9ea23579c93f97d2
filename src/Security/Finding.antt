-- ===== src/Security/Finding.antt =====
-- security_toolkit/src/core/models.py: findings and their fingerprints. SHA-256 is a parameter: the
-- function from a text to the hexadecimal digits of its hash.
pub mod Fingerprints
use csc512_distributed_syste.Prelude.{
  ℕ, zero, suc, Bool, true, false, Option, none, some, List, [], ◌∷◌, ◌++◌, if◌then◌else◌,
}
use csc512_distributed_syste.Prelude.Dict.{Dict}
use csc512_distributed_syste.Prelude.Text.{Text, codes, decimal, take}
use csc512_distributed_syste.Security.Severity
use csc512_distributed_syste.Security.Severity.{NormalizedSeverity}
use csc512_distributed_syste.Security.Value.{Value}

pub record Finding : Type 0 where
  pub tool : Text
  pub rule_id : Text
  pub title : Text
  pub description : Text
  pub severity : NormalizedSeverity
  pub file_path : Option Text
  pub line : ℕ
  pub category : Text
  pub raw : Dict Text Value
  pub fingerprint : Text

-- `f"{path}"` prints a missing path as None
unfoldable pub path_text : Option Text → Text
path_text none = codes "None"
path_text (some path) = path

unfoldable pub blob : Finding → Text
unfolding path_text
blob f =
    f.rule_id
    ++ codes "|"
    ++ path_text f.file_path
    ++ codes "|"
    ++ decimal f.line
    ++ codes "|"
    ++ f.title

module _ (sha256 : Text → Text) where
  unfoldable pub compute_fingerprint : Finding → Text
  unfolding blob
  compute_fingerprint f = take 16 (sha256 (blob f))

  -- `__post_init__`
  unfoldable pub post_init : Finding → Finding
  unfolding compute_fingerprint
  post_init f = elim f.fingerprint [
    | [] ↦ record f { fingerprint = compute_fingerprint f }
    | c ∷ rest ↦ f
  ]

pub record FindingEntry : Type 0 where
  pub severity : Text
  pub tool : Text
  pub rule_id : Text
  pub category : Text
  pub title : Text
  pub description : Text
  pub location : Text
  pub fingerprint : Text
  pub raw : Option (Dict Text Value)

-- `self.file_path or ""`
unfoldable pub path_or_empty : Option Text → Text
path_or_empty none = []
path_or_empty (some path) = path

unfoldable pub line_suffix : ℕ → Text
line_suffix zero = []
line_suffix (suc n) = codes ":" ++ decimal (suc n)

unfoldable pub raw_entry : Bool → Dict Text Value → Option (Dict Text Value)
raw_entry false raw = none
raw_entry true [] = none
raw_entry true (e ∷ raw) = some (e ∷ raw)

unfoldable pub to_dict : Bool → Finding → FindingEntry
unfolding path_or_empty line_suffix raw_entry
to_dict include_raw f = record {
  severity = Severity.name f.severity;
  tool = f.tool;
  rule_id = f.rule_id;
  category = f.category;
  title = f.title;
  description = f.description;
  location = path_or_empty f.file_path ++ line_suffix f.line;
  fingerprint = f.fingerprint;
  raw = raw_entry include_raw f.raw;
}
