-- ===== src/Security/Report/Dedup.antt =====
-- `deduplicate` keeps, of the findings with one fingerprint, the first that is the most severe.
use csc512_distributed_syste.Prelude.{
  ◌≡◌, refl, ◌∙◌, Option, none, some, List, [], ◌∷◌, map, arith, ltb, if◌then◌else◌, ◌==◌, Distinct,
  All,
}
use csc512_distributed_syste.Prelude.Dict.{Dict, get, put, keys, values, get-put, put-Distinct}
use csc512_distributed_syste.Prelude.Text.{Text, text_eq, text_beq_iff}
use csc512_distributed_syste.Security.Finding.{Finding}
use csc512_distributed_syste.Security.Report.{
  ScanReport, severity_of, dedup_step, dedup_loop, deduplicate,
}

-- Of two candidates the earlier one, unless the later one is more severe.
abbrev pub better : Option Finding → Option Finding → Option Finding
better none g = g
better (some f) none = some f
better (some f) (some g) = if ltb (severity_of f) (severity_of g) then some g else some f

-- The first of the most severe findings with fingerprint `k`.
pub pick : Text → List Finding → Option Finding
pick k [] = none
pick k (f ∷ fs) = better (if f.fingerprint == k then some f else none) (pick k fs)

better_assoc : (a b c : Option Finding) → better (better a b) c ≡ better a (better b c)
better_assoc a b c = ground arith

better-none : (a : Option Finding) → better a none ≡ a
better-none a = ground arith

get-dedup_step :
    (k : Text) (seen : Dict Text Finding) (f : Finding)
    → get k (dedup_step seen f) ≡ better (get k seen) (if f.fingerprint == k then some f else none)
unfolding dedup_step
get-dedup_step k seen f =
    ground (arith, get-put f.fingerprint k f seen, text_beq_iff f.fingerprint k)

get-dedup_loop :
    (k : Text) (seen : Dict Text Finding) (fs : List Finding)
    → get k (dedup_loop seen fs) ≡ better (get k seen) (pick k fs)
unfolding dedup_loop pick
get-dedup_loop k seen [] = ground arith
get-dedup_loop k seen (f ∷ fs) =
    rw (get-dedup_loop k (dedup_step seen f) fs, get-dedup_step k seen f)
      (better_assoc (get k seen) (if f.fingerprint == k then some f else none) (pick k fs))

-- The entries of the dictionary are filed under their own fingerprints.
abbrev IsFiled : Dict Text Finding → Type 0
IsFiled d = All (λ e. e.1.fingerprint ≡ e.0) d

put-IsFiled : (f : Finding) (d : Dict Text Finding) → IsFiled d → IsFiled (put f.fingerprint f d)
unfolding put
put-IsFiled f [] h = (refl, tt)
put-IsFiled f ((i, g) ∷ d) h = ground (arith, put-IsFiled f d h.1, text_beq_iff i f.fingerprint)

dedup_step-IsFiled :
    (seen : Dict Text Finding) (f : Finding) → IsFiled seen → IsFiled (dedup_step seen f)
unfolding dedup_step
dedup_step-IsFiled seen f h = ground (arith, put-IsFiled f seen h)

dedup_loop-IsFiled :
    (seen : Dict Text Finding) (fs : List Finding) → IsFiled seen → IsFiled (dedup_loop seen fs)
unfolding dedup_loop
dedup_loop-IsFiled seen [] h = h
dedup_loop-IsFiled seen (f ∷ fs) h =
    dedup_loop-IsFiled (dedup_step seen f) fs (dedup_step-IsFiled seen f h)

dedup_loop-Distinct :
    (seen : Dict Text Finding) (fs : List Finding)
    → Distinct (keys seen)
    → Distinct (keys (dedup_loop seen fs))
unfolding dedup_loop dedup_step
dedup_loop-Distinct seen [] h = h
dedup_loop-Distinct seen (f ∷ fs) h =
    dedup_loop-Distinct (dedup_step seen f) fs
      (ground (arith, h, put-Distinct f.fingerprint f seen h))

fingerprints-values :
    (d : Dict Text Finding) → IsFiled d → map (λ f. f.fingerprint) (values d) ≡ keys d
unfolding values keys
fingerprints-values [] h = refl
fingerprints-values ((i, g) ∷ d) h = cc (h.0, fingerprints-values d h.1)

-- The first finding with fingerprint `k`.
pub find : Text → List Finding → Option Finding
find k [] = none
find k (f ∷ fs) = if f.fingerprint == k then some f else find k fs

find-values : (k : Text) (d : Dict Text Finding) → IsFiled d → find k (values d) ≡ get k d
unfolding find values get
find-values k [] h = refl
find-values k ((i, g) ∷ d) h = ground (arith, find-values k d h.1, h.0)

-- After `deduplicate` no two findings have one fingerprint.
pub deduplicate-Distinct :
    (r : ScanReport) → Distinct (map (λ f. f.fingerprint) (deduplicate r).findings)
unfolding deduplicate
deduplicate-Distinct r =
    rw (fingerprints-values (dedup_loop [] r.findings) (dedup_loop-IsFiled [] r.findings tt))
      (dedup_loop-Distinct [] r.findings (unfold keys in tt))

-- For every fingerprint `deduplicate` keeps the first of the most severe findings of the report that
-- have it, and none if no finding has it.
pub deduplicate-pick :
    (r : ScanReport) (k : Text) → find k (deduplicate r).findings ≡ pick k r.findings
unfolding deduplicate
deduplicate-pick r k =
    rw (find-values k (dedup_loop [] r.findings) (dedup_loop-IsFiled [] r.findings tt))
      (get-dedup_loop k [] r.findings ∙ unfold get in refl)
