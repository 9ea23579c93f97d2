-- ===== src/Security/Severity.antt =====
-- security_toolkit/src/core/models.py: severities and the labels of the scanners.
pub mod Laws
use csc512_distributed_syste.Prelude.{ℕ, ◌≡◌, refl, List, [], ◌∷◌}
use csc512_distributed_syste.Prelude.Dict.{Dict, get_or}
use csc512_distributed_syste.Prelude.Text.{Text, codes, strip, lower, text_eq}

pub data NormalizedSeverity : Type 0 where
  info low medium high critical : NormalizedSeverity

-- The number of a member of the IntEnum, by which severities are compared.
abbrev pub value : NormalizedSeverity → ℕ
value info = 1
value low = 2
value medium = 3
value high = 4
value critical = 5

-- Its name.
abbrev pub name : NormalizedSeverity → Text
name info = codes "INFO"
name low = codes "LOW"
name medium = codes "MEDIUM"
name high = codes "HIGH"
name critical = codes "CRITICAL"

unfoldable pub severity_map : Dict Text NormalizedSeverity
severity_map =
    (codes "unknown", info)
    ∷ (codes "negligible", info)
    ∷ (codes "low", low)
    ∷ (codes "medium", medium)
    ∷ (codes "high", high)
    ∷ (codes "critical", critical)
    ∷ (codes "info", info)
    ∷ (codes "warning", medium)
    ∷ (codes "error", high)
    ∷ (codes "informative", info)
    ∷ (codes "moderate", medium)
    ∷ (codes "important", high)
    ∷ []

-- An unknown label counts as medium.
unfoldable pub normalize_severity : Text → NormalizedSeverity
unfolding severity_map
normalize_severity raw = get_or (lower (strip raw)) medium severity_map
