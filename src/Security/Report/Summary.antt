-- ===== src/Security/Report/Summary.antt =====
-- The order, the counts and the verdict of a report.
use csc512_distributed_syste.Prelude.{
  ℕ, suc, ◌+◌, ◌≡◌, refl, ap, ◌∙◌, ◌≤◌, ◌<◌, Bool-cases, inl, inr, true, false, All, All-append,
  ◌++◌, List, [], ◌∷◌, select, arith, if◌then◌else◌, ◌==◌, nat_eq,
}
use csc512_distributed_syste.Prelude.Dict.{Dict, get, put, get_or}
use csc512_distributed_syste.Prelude.Sort.{insert_sorted, sorted}
use csc512_distributed_syste.Prelude.Text.{Text, text_eq, text_beq}
use csc512_distributed_syste.Security.Severity
use csc512_distributed_syste.Security.Severity.{
  NormalizedSeverity, info, low, medium, high, critical,
}
use csc512_distributed_syste.Security.Finding.{Finding}
use csc512_distributed_syste.Security.Report.{
  ScanReport, severity_of, more_severe, sort_by_severity, count_loop, severity_counts,
}

-- The findings of each severity of a list, in turn, in the order that they had.
abbrev pub buckets : List NormalizedSeverity → List Finding → List Finding
buckets [] fs = []
buckets (s ∷ ss) fs =
    select (λ f. Severity.value f.severity == Severity.value s) fs ++ buckets ss fs

-- A new finding goes behind all that are more severe, and before all others.
insert_past :
    (f : Finding) (xs ys : List Finding)
    → All (λ g. severity_of f < severity_of g) xs
    → insert_sorted more_severe f (xs ++ ys) ≡ xs ++ insert_sorted more_severe f ys
unfolding insert_sorted
insert_past f [] ys h = refl
insert_past f (x ∷ xs) ys h =
    let later : more_severe f x ≡ false = ground (arith, h.0) in rw (later, insert_past f xs ys h.1)

insert_first :
    (f : Finding) (ys : List Finding)
    → All (λ g. severity_of g ≤ severity_of f) ys
    → insert_sorted more_severe f ys ≡ f ∷ ys
unfolding insert_sorted
insert_first f [] h = refl
insert_first f (y ∷ ys) h =
    let first : more_severe f y ≡ true = ground (arith, h.0) in rw first refl

All-bucket :
    (P : Finding → Type 0) (s : NormalizedSeverity) (fs : List Finding)
    → ((g : Finding) → severity_of g ≡ Severity.value s → P g)
    → All P (select (λ f. Severity.value f.severity == Severity.value s) fs)
unfolding select
All-bucket P s [] h = tt
All-bucket P s (f ∷ fs) h = elim (Bool-cases (Severity.value f.severity == Severity.value s)) [
  | inl e ↦ rw e (h f (ground (arith, e)), All-bucket P s fs h)
  | inr e ↦ rw e (All-bucket P s fs h)
]

All-buckets :
    (n : ℕ) (ss : List NormalizedSeverity) (fs : List Finding)
    → All (λ s. Severity.value s < n) ss
    → All (λ g. severity_of g ≤ n) (buckets ss fs)
All-buckets n [] fs h = tt
All-buckets n (s ∷ ss) fs h =
    All-append (λ g. severity_of g ≤ n)
      (select (λ f. Severity.value f.severity == Severity.value s) fs) (buckets ss fs)
      (All-bucket _ s fs (λ g e. omega (arith, e, h.0))) (All-buckets n ss fs h.1)

buckets_below :
    (f : Finding) (ss : List NormalizedSeverity) (fs : List Finding)
    → All (λ s. Severity.value s < severity_of f) ss
    → buckets ss (f ∷ fs) ≡ buckets ss fs
unfolding select
buckets_below f [] fs h = refl
buckets_below f (s ∷ ss) fs h =
    let other : Severity.value f.severity == Severity.value s ≡ false = ground (arith, h.0) in
    rw (other, buckets_below f ss fs h.1)

insert_bucket :
    (f : Finding) (fs : List Finding) (above : List NormalizedSeverity) (s : NormalizedSeverity)
    (below : List NormalizedSeverity)
    → All (λ a. severity_of f < Severity.value a) above
    → severity_of f ≡ Severity.value s
    → All (λ b. Severity.value b < severity_of f) below
    → insert_sorted more_severe f (buckets (above ++ s ∷ below) fs)
      ≡ buckets (above ++ s ∷ below) (f ∷ fs)
unfolding select
insert_bucket f fs [] s below h e k =
    let same : Severity.value f.severity == Severity.value s ≡ true = ground (arith, e) in
    rw (same, buckets_below f below fs k)
      (insert_first f (buckets (s ∷ below) fs) (
        All-append (λ g. severity_of g ≤ severity_of f) _ (buckets below fs)
          (All-bucket _ s fs (λ g d. omega (arith, d, e)))
          (All-buckets (severity_of f) below fs k)))
insert_bucket f fs (a ∷ above) s below h e k =
    let other : Severity.value f.severity == Severity.value a ≡ false = ground (arith, h.0) in
    insert_past f _ (buckets (above ++ s ∷ below) fs)
      (All-bucket _ a fs (λ g d. omega (arith, d, h.0)))
    ∙ rw other (
        ap (λ rest. select (λ g. Severity.value g.severity == Severity.value a) fs ++ rest)
          (insert_bucket f fs above s below h.1 e k))

abbrev pub descending : List NormalizedSeverity
descending = critical ∷ high ∷ medium ∷ low ∷ info ∷ []

insert_in_order :
    (f : Finding) (fs : List Finding) (s : NormalizedSeverity)
    → f.severity ≡ s
    → insert_sorted more_severe f (buckets descending fs) ≡ buckets descending (f ∷ fs)
insert_in_order f fs critical e =
    let n = ap Severity.value e in
    insert_bucket f fs [] critical (high ∷ medium ∷ low ∷ info ∷ []) tt n
      (omega (arith, n), (omega (arith, n), (omega (arith, n), (omega (arith, n), tt))))
insert_in_order f fs high e =
    let n = ap Severity.value e in
    insert_bucket f fs (critical ∷ []) high (medium ∷ low ∷ info ∷ []) (omega (arith, n), tt) n
      (omega (arith, n), (omega (arith, n), (omega (arith, n), tt)))
insert_in_order f fs medium e =
    let n = ap Severity.value e in
    insert_bucket f fs (critical ∷ high ∷ []) medium (low ∷ info ∷ [])
      (omega (arith, n), (omega (arith, n), tt)) n (omega (arith, n), (omega (arith, n), tt))
insert_in_order f fs low e =
    let n = ap Severity.value e in
    insert_bucket f fs (critical ∷ high ∷ medium ∷ []) low (info ∷ [])
      (omega (arith, n), (omega (arith, n), (omega (arith, n), tt))) n (omega (arith, n), tt)
insert_in_order f fs info e =
    let n = ap Severity.value e in
    insert_bucket f fs (critical ∷ high ∷ medium ∷ low ∷ []) info []
      (omega (arith, n), (omega (arith, n), (omega (arith, n), (omega (arith, n), tt)))) n tt

sorted-buckets : (fs : List Finding) → sorted more_severe fs ≡ buckets descending fs
unfolding sorted select
sorted-buckets [] = refl
sorted-buckets (f ∷ fs) =
    ap (insert_sorted more_severe f) (sorted-buckets fs) ∙ insert_in_order f fs f.severity refl

-- After `sort_by_severity` the critical findings come first, then the high, the medium, the low ones
-- and those for information, the findings of each severity in the order that they had.
pub sort_by_severity_lem :
    (r : ScanReport)
    → (sort_by_severity r).findings
      ≡ buckets (critical ∷ high ∷ medium ∷ low ∷ info ∷ []) r.findings
unfolding sort_by_severity
sort_by_severity_lem r = sorted-buckets r.findings

-- How many findings have a severity.
abbrev pub tally : NormalizedSeverity → List Finding → ℕ
tally s [] = 0
tally s (f ∷ fs) =
    if Severity.value f.severity == Severity.value s then suc (tally s fs) else tally s fs

abbrev tallies : ℕ → ℕ → ℕ → ℕ → ℕ → Dict Text ℕ
tallies a b c d e =
    (Severity.name info, a)
    ∷ (Severity.name low, b)
    ∷ (Severity.name medium, c)
    ∷ (Severity.name high, d)
    ∷ (Severity.name critical, e)
    ∷ []

abbrev tick : NormalizedSeverity → NormalizedSeverity → ℕ → ℕ
tick s t n = if Severity.value s == Severity.value t then suc n else n

count_step :
    (s : NormalizedSeverity) (a b c d e : ℕ)
    → put
        (Severity.name s)
        (suc (get_or (Severity.name s) 0 (tallies a b c d e)))
        (tallies a b c d e)
      ≡ tallies (tick s info a) (tick s low b) (tick s medium c) (tick s high d) (tick s critical e)
unfolding put get_or get text_beq
count_step info a b c d e = refl
count_step low a b c d e = refl
count_step medium a b c d e = refl
count_step high a b c d e = refl
count_step critical a b c d e = refl

add_tick : (s t : NormalizedSeverity) (n m : ℕ) → tick s t n + m ≡ n + tick s t m
add_tick s t n m = ground arith

tallies_path :
    {a b c d e a' b' c' d' e' : ℕ}
    → a ≡ a'
    → b ≡ b'
    → c ≡ c'
    → d ≡ d'
    → e ≡ e'
    → tallies a b c d e ≡ tallies a' b' c' d' e'
tallies_path p q r s t = cc

count_loop_lem :
    (a b c d e : ℕ) (fs : List Finding)
    → count_loop (tallies a b c d e) fs
      ≡ tallies
          (a + tally info fs)
          (b + tally low fs)
          (c + tally medium fs)
          (d + tally high fs)
          (e + tally critical fs)
unfolding count_loop
count_loop_lem a b c d e [] =
    tallies_path (omega arith) (omega arith) (omega arith) (omega arith) (omega arith)
count_loop_lem a b c d e (f ∷ fs) = rw (count_step f.severity a b c d e) (
    count_loop_lem (tick f.severity info a) (tick f.severity low b) (tick f.severity medium c)
      (tick f.severity high d) (tick f.severity critical e) fs
    ∙ tallies_path (add_tick f.severity info a (tally info fs))
        (add_tick f.severity low b (tally low fs)) (add_tick f.severity medium c (tally medium fs))
        (add_tick f.severity high d (tally high fs))
        (add_tick f.severity critical e (tally critical fs)))

-- `severity_counts` has one entry for each severity, in ascending order, and the entry is the number
-- of findings that have it.
pub severity_counts_lem :
    (r : ScanReport)
    → severity_counts r
      ≡ (Severity.name info, tally info r.findings)
        ∷ (Severity.name low, tally low r.findings)
        ∷ (Severity.name medium, tally medium r.findings)
        ∷ (Severity.name high, tally high r.findings)
        ∷ (Severity.name critical, tally critical r.findings)
        ∷ []
unfolding severity_counts
severity_counts_lem r =
    count_loop_lem 0 0 0 0 0 r.findings
    ∙ tallies_path (omega arith) (omega arith) (omega arith) (omega arith) (omega arith)
