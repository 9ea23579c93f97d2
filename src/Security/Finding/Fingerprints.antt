-- ===== src/Security/Finding/Fingerprints.antt =====
-- What a fingerprint depends on, and when different findings share one.
use csc512_distributed_syste.Prelude.{◌≡◌, none, [], ◌++◌, append_assoc}
use csc512_distributed_syste.Prelude.Text.{Text, codes, decimal}
use csc512_distributed_syste.Security.Finding.{Finding, compute_fingerprint, post_init}

-- Two findings of scanners that give no fingerprint of their own get the same one if they agree in
-- rule, file, line and title, whatever the tool, severity, description or category.
fingerprint-post_init :
    (sha256 : Text → Text) (f g : Finding)
    → f.fingerprint ≡ []
    → g.fingerprint ≡ []
    → f.rule_id ≡ g.rule_id
    → f.file_path ≡ g.file_path
    → f.line ≡ g.line
    → f.title ≡ g.title
    → (post_init sha256 f).fingerprint ≡ (post_init sha256 g).fingerprint
unfolding post_init
fingerprint-post_init sha256 f g p q r s t u = rw (p, q) (rw (r, s, t, u))

-- The separator is not escaped: a rule whose name ends in `|None|0|` and a piece of a title shares
-- its fingerprints with another rule, for any hash.
pub fingerprint-collision :
    (sha256 : Text → Text) (f : Finding) (rule piece title : Text)
    → f.file_path ≡ none
    → f.line ≡ 0
    → compute_fingerprint sha256
        (record f { rule_id = rule ++ codes "|None|0|" ++ piece; title = title })
      ≡ compute_fingerprint sha256
          (record f { rule_id = rule; title = piece ++ codes "|None|0|" ++ title })
unfolding compute_fingerprint decimal
fingerprint-collision sha256 f rule piece title p q = rw (p, q) (simp append_assoc)
