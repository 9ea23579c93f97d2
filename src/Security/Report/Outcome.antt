-- ===== src/Security/Report/Outcome.antt =====
-- The verdict of a report, which deduplication and sorting leave alone.
use csc512_distributed_syste.Prelude.{
  ◌≤◌, ◌≡◌, refl, subst, inl, inr, Bool, true, ◌||◌, Option, none, some, List, [], ◌∷◌, any, arith,
  ltb, if◌then◌else◌, Bool-cases,
}
use csc512_distributed_syste.Prelude.Dict.{
  Dict, get, put, values, any-values-put, any-values_of_get,
}
use csc512_distributed_syste.Prelude.Sort.{insert_sorted, sorted}
use csc512_distributed_syste.Prelude.Text.{Text, text_eq}
use csc512_distributed_syste.Security.Finding.{Finding}
use csc512_distributed_syste.Security.Report.{
  ScanReport, severity_of, more_severe, is_high, dedup_step, dedup_loop, deduplicate,
  sort_by_severity, Verdict, fail, warn, pass, verdict_of, verdict,
}

module _ (p : Finding → Bool)
    (up : (f g : Finding) → severity_of f ≤ severity_of g → p f ≡ true → p g ≡ true) where
  any-dedup_step :
      (seen : Dict Text Finding) (f : Finding)
      → any p (values (dedup_step seen f)) ≡ p f || any p (values seen)
  unfolding dedup_step
  any-dedup_step seen f = go (get f.fingerprint seen) refl
    where
      go :
          (o : Option Finding)
          → get f.fingerprint seen ≡ o
          → any p (
              values (elim o [
                | none ↦ put f.fingerprint f seen
                | some g ↦
                    if ltb (severity_of g) (severity_of f) then put f.fingerprint f seen else seen
              ]))
            ≡ p f || any p (values seen)
      go none e = any-values-put p f.fingerprint f seen (λ w g. cc (e, g))
      go (some g) e = elim (Bool-cases (ltb (severity_of g) (severity_of f))) [
        | inl l ↦ rw l (
            any-values-put p f.fingerprint f seen λ w h.
              let same : g ≡ w = cc (e, h) in
              subst (λ v. p v ≡ true → p f ≡ true) same (up g f (ground arith)))
        | inr l ↦ rw l (ground (arith, up f g, any-values_of_get p f.fingerprint g seen e))
      ]

  any-dedup_loop :
      (seen : Dict Text Finding) (fs : List Finding)
      → any p (values (dedup_loop seen fs)) ≡ any p (values seen) || any p fs
  unfolding dedup_loop any
  any-dedup_loop seen [] = ground arith
  any-dedup_loop seen (f ∷ fs) =
      ground (arith, any-dedup_loop (dedup_step seen f) fs, any-dedup_step seen f)

any-insert_sorted :
    (p : Finding → Bool) (f : Finding) (fs : List Finding)
    → any p (insert_sorted more_severe f fs) ≡ p f || any p fs
unfolding insert_sorted any
any-insert_sorted p f [] = refl
any-insert_sorted p f (g ∷ fs) = ground (arith, any-insert_sorted p f fs)

any-sorted : (p : Finding → Bool) (fs : List Finding) → any p (sorted more_severe fs) ≡ any p fs
unfolding sorted any
any-sorted p [] = refl
any-sorted p (f ∷ fs) =
    ground (arith, any-insert_sorted p f (sorted more_severe fs), any-sorted p fs)

-- The verdict by two tests: is there a finding at all, and one of severity high or above.
by_tests : Bool → Bool → Verdict
by_tests found serious = if serious then fail else if found then warn else pass

verdict-by_tests :
    (fs : List Finding) → verdict_of fs ≡ by_tests (any (λ f. true) fs) (any is_high fs)
unfolding verdict_of by_tests any
verdict-by_tests [] = refl
verdict-by_tests (f ∷ fs) = ground arith

-- The verdict is the same before and after the findings are deduplicated and sorted.
pub verdict-deduplicate : (r : ScanReport) → verdict (sort_by_severity (deduplicate r)) ≡ verdict r
unfolding verdict sort_by_severity deduplicate
verdict-deduplicate r =
    rw
      (
        verdict-by_tests (sorted more_severe (values (dedup_loop [] r.findings))),
        verdict-by_tests r.findings,
        any-sorted (λ f. true) (values (dedup_loop [] r.findings)),
        any-sorted is_high (values (dedup_loop [] r.findings)),
        any-dedup_loop (λ f. true) (λ f g h q. refl) [] r.findings,
        any-dedup_loop is_high (λ f g h q. ground arith) [] r.findings,
      )
      (unfold any values in refl)

-- Lists of findings that pass the same two tests have one verdict.
pub verdict_of_tests :
    (fs gs : List Finding)
    → any (λ f. true) fs ≡ any (λ f. true) gs
    → any is_high fs ≡ any is_high gs
    → verdict_of fs ≡ verdict_of gs
verdict_of_tests fs gs p q = cc (verdict-by_tests fs, verdict-by_tests gs)
