-- ===== src/Cdup/Clones/Scan/Reported.antt =====
-- What `detect_clones` of cdup/src/detect.py reports, without the index and the scan.
use csc512_distributed_syste.Prelude.{
  ℕ, zero, suc, ◌+◌, ◌-◌, ◌≤◌, ◌<◌, ◌≡◌, refl, ap, sym, ◌∙◌, subst, ◌↔◌, Bool, true, false, ◌&&◌,
  Option, none, some, List, [], ◌∷◌, member, member-All, all-of_member, length, get_elem?, leb, ltb,
  ltb→lt, ◌==◌, nat_eq, pair_eq, if◌then◌else◌, all, Distinct, arith, Bool-cases, inl, inr,
}
use csc512_distributed_syste.Prelude.Dict.{Dict, get_or}
use csc512_distributed_syste.Prelude.Text.{Text, text_eq}
use csc512_distributed_syste.Cdup.Clones.Scan.{
  Entry, Flat, Run, is_entry, inverted_index, completed_clones, scan_entry,
}
use csc512_distributed_syste.Cdup.Clones.Scan.Counts.{found, found-member}
use csc512_distributed_syste.Cdup.Clones.Scan.Runs.{hit, run, run_le, IsMaximal, IsScanned}
use csc512_distributed_syste.Cdup.Clones.Scan.Exact.{IsIndex, last_scan, scanned}
use csc512_distributed_syste.Cdup.Clones.Scan.Index.{
  positions, positions-Distinct, member-positions, has_norm, inverted_index-get_or,
}

-- Whether two entries are statements with the same norm.
unfoldable pub same_norm : Flat → ℕ → ℕ → Bool
unfolding has_norm
same_norm flat i j = elim (get_elem? flat i) [
  | none ↦ false
  | some x ↦ elim x [ none ↦ false | some e ↦ has_norm flat e.norm j ]
]

module _ (flat : Flat) where
  has_norm-is_entry : (norm : Text) (j : ℕ) → has_norm flat norm j ≡ true → is_entry flat j ≡ true
  unfolding has_norm is_entry
  has_norm-is_entry norm j h = at (get_elem? flat j) h
    where
      at :
          (x : Option (Option Entry))
          → (elim x [ none ↦ false | some y ↦ elim y [ none ↦ false | some e ↦ e.norm == norm ] ])
            ≡ true
          → (elim x [ none ↦ false | some y ↦ elim y [ none ↦ false | some e ↦ true ] ]) ≡ true
      at none k = k
      at (some none) k = k
      at (some (some e)) k = refl

  positions-entries : (norm : Text) → all (is_entry flat) (positions norm 0 flat) ≡ true
  positions-entries norm = all-of_member (is_entry flat) (positions norm 0 flat) λ j h.
      has_norm-is_entry norm j (
        sym (member-positions norm 0 j flat)
        ∙ ap (λ n. member n (positions norm 0 flat)) (omega arith)
        ∙ h)

  Fits : List ℕ → Type 0
  Fits l = Distinct l × (all (is_entry flat) l ≡ true)

  pub inverted_index-IsIndex : (max_freq : ℕ) → IsIndex flat (inverted_index max_freq flat)
  unfolding Fits all
  inverted_index-IsIndex max_freq norm =
      let every : Fits (positions norm 0 flat) =
        (positions-Distinct norm 0 flat, positions-entries norm) in
      let no_positions : Fits [] = (tt, refl) in
      subst (λ l. Fits l) (sym (inverted_index-get_or max_freq flat norm))
        (either (leb 1 max_freq) _ _
          (either (leb (length (positions norm 0 flat)) max_freq) _ _ every no_positions) every)
    where
      either : (b : Bool) (l k : List ℕ) → Fits l → Fits k → Fits (if b then l else k)
      either true l k x y = x
      either false l k x y = y

  -- With no limit on the frequency, the index finds all equal statements.
  hit_lem : (o i : ℕ) → hit flat (inverted_index 0 flat) o i ≡ ltb 0 o && same_norm flat i (i + o)
  unfolding hit same_norm
  hit_lem o i = at (get_elem? flat i)
    where
      at :
          (x : Option (Option Entry))
          → (elim x [
            | none ↦ false
            | some y ↦ elim y [
              | none ↦ false
              | some e ↦ found i o (get_or e.norm [] (inverted_index 0 flat))
            ]
          ])
            ≡ ltb 0 o && (elim x [
              | none ↦ false
              | some y ↦ elim y [ none ↦ false | some e ↦ has_norm flat e.norm (i + o) ]
            ])
      at none = ground arith
      at (some none) = ground arith
      at (some (some e)) =
          let listed : member (i + o) (get_or e.norm [] (inverted_index 0 flat))
              ≡ has_norm flat e.norm (i + o) =
            ap (λ l. member (i + o) l) (inverted_index-get_or 0 flat e.norm)
            ∙ ap (λ n. member n (positions e.norm 0 flat)) (omega arith)
            ∙ member-positions e.norm 0 (i + o) flat in
          ground (arith, found-member i o (get_or e.norm [] (inverted_index 0 flat)), listed)

  pub run-hits :
      (index : Dict Text (List ℕ)) (o i k : ℕ)
      → k < run flat index o i
      → hit flat index o (i - run flat index o i + k) ≡ true
  unfolding run
  run-hits index o zero k h = absurd (omega (arith, h))
  run-hits index o (suc i) k h = elim (Bool-cases (hit flat index o i)) [
    | inl e ↦
        let short = run_le flat index o i in
        let bound : k < suc (run flat index o i) = (rw e at h) in
        rw e (elim (Bool-cases (ltb k (run flat index o i))) [
          | inl f ↦
              subst (λ n. hit flat index o n ≡ true) (omega (arith, short))
                (run-hits index o i k (ltb→lt _ _ f))
          | inr f ↦ subst (λ n. hit flat index o n ≡ true) (ground (arith, short, bound, f)) e
        ])
    | inr e ↦ let none_left : k < 0 = (rw e at h) in absurd (omega (arith, none_left))
  ]

  plus_zero : (a : ℕ) → a + 0 ≡ a
  plus_zero a = omega arith

  plus_suc : (a l : ℕ) → a + suc l ≡ suc (a + l)
  plus_suc a l = omega arith

  run-hits_added :
      (index : Dict Text (List ℕ)) (o a l : ℕ)
      → ((k : ℕ) → k < l → hit flat index o (a + k) ≡ true)
      → run flat index o (a + l) ≡ run flat index o a + l
  unfolding run
  run-hits_added index o a zero h = ap (λ n. run flat index o n) (plus_zero a) ∙ omega arith
  run-hits_added index o a (suc l) h =
      let before = run-hits_added index o a l (λ k b. h k (omega (arith, b))) in
      let grows : run flat index o (suc (a + l)) ≡ run flat index o a + suc l =
        rw (h l (omega arith)) (omega (arith, before)) in
      ap (λ n. run flat index o n) (plus_suc a l) ∙ grows

  run_start :
      (index : Dict Text (List ℕ)) (o a : ℕ)
      → ((j : ℕ) → suc j ≡ a → hit flat index o j ≡ false)
      → run flat index o a ≡ 0
  unfolding run
  run_start index o zero g = refl
  run_start index o (suc a) g = rw (g a refl) refl

  no_hit_before :
      (index : Dict Text (List ℕ)) (o j : ℕ)
      → run flat index o (suc j) ≡ 0
      → hit flat index o j ≡ false
  unfolding run
  no_hit_before index o j h = ground (arith, h)

past : (flat : Flat) (i : ℕ) → length flat ≤ i → get_elem? flat i ≡ none
past [] i h = refl
past (x ∷ flat) zero h = absurd (omega arith)
past (x ∷ flat) (suc i) h = past flat i (omega arith)

same_norm-inside : (flat : Flat) (i j : ℕ) → same_norm flat i j ≡ true → i < length flat
unfolding same_norm
same_norm-inside flat i j h = elim (Bool-cases (ltb i (length flat))) [
  | inl e ↦ ltb→lt _ _ e
  | inr e ↦
      let gone = past flat i (ground (arith, e)) in
      let no : false ≡ true = (rw (same_norm, gone) at h) in cc
]

-- A run of statements and its copy are a longest pair: the norms are equal all along, and not just
-- before nor just after.
pub record IsLongest (flat : Flat) (min_length : ℕ) (c : Run) : Type 0 where
  later : c.0 < c.1.0
  long : min_length ≤ c.1.1
  some : 1 ≤ c.1.1
  same : (k : ℕ) → k < c.1.1 → same_norm flat (c.0 + k) (c.1.0 + k) ≡ true
  ends : same_norm flat (c.0 + c.1.1) (c.1.0 + c.1.1) ≡ false
  begins : (i j : ℕ) → suc i ≡ c.0 → suc j ≡ c.1.0 → same_norm flat i j ≡ false

module _ (flat : Flat) (min_length : ℕ) where
  abbrev index : Dict Text (List ℕ)
  index = inverted_index 0 flat

  hit-same_norm : (o i j : ℕ) → 1 ≤ o → i + o ≡ j → hit flat index o i ≡ same_norm flat i j
  hit-same_norm o i j h q = ground (arith, hit_lem flat o i, ap (λ n. same_norm flat i n) q)

  IsMaximal-IsLongest : (c : Run) → IsMaximal flat index min_length c → IsLongest flat min_length c
  IsMaximal-IsLongest (a, (b, l)) h =
      let o = b - a in
      let away = h.later in
      let full = h.full in
      let hits : (k : ℕ) → k < l → hit flat index o (a + k) ≡ true = λ k s.
        subst (λ n. hit flat index o n ≡ true) (omega (arith, full))
          (run-hits flat index o (a + l) k (omega (arith, full, s))) in
      let fresh : run flat index o a ≡ 0 =
        omega (arith, full, run-hits_added flat index o a l hits) in
      record {
        later = h.later;
        long = h.long;
        some = h.some;
        same = λ k s.
            sym (hit-same_norm o (a + k) (b + k) (omega (arith, away)) (omega (arith, away)))
            ∙ hits k s;
        ends =
            sym (hit-same_norm o (a + l) (b + l) (omega (arith, away)) (omega (arith, away)))
            ∙ h.last;
        begins = λ i j p q.
            sym (hit-same_norm o i j (omega (arith, away)) (omega (arith, p, q, away)))
            ∙ no_hit_before flat index o i (ap (λ n. run flat index o n) p ∙ fresh);
      }

  -- The runs that are reported are exactly the longest pairs of equal runs of statements, of the
  -- minimal length at least, when the frequency of a statement is not limited.
  pub completed_clones_iff :
      (c : Run)
      → (member c (completed_clones min_length 0 flat) ≡ true) ↔ IsLongest flat min_length c
  unfolding completed_clones scan_entry
  completed_clones_iff (a, (b, l)) = (
    λ m.
        IsMaximal-IsLongest (a, (b, l))
          (member-All (λ c. IsMaximal flat index min_length c) (a, (b, l)) _ every.sound m),
    λ h.
        let away = h.later in
        let o = b - a in
        let hits : (k : ℕ) → k < l → hit flat index o (a + k) ≡ true = λ k s.
          hit-same_norm o (a + k) (b + k) (omega (arith, away)) (omega (arith, away))
          ∙ h.same k s in
        let fresh = run_start flat index o a λ j p.
          hit-same_norm o j (j + o) (omega (arith, away)) refl
          ∙ h.begins j (j + o) p (omega (arith, p, away)) in
        let full : run flat index o (a + l) ≡ l =
          omega (arith, run-hits_added flat index o a l hits, fresh) in
        let inside : a + (l - 1) < length flat =
          same_norm-inside flat (a + (l - 1)) (b + (l - 1))
            (h.same (l - 1) (omega (arith, h.some))) in
        let found_it =
          every.complete o (a + l) (omega (arith, inside, h.some))
            (hit-same_norm o (a + l) (b + l) (omega (arith, away)) (omega (arith, away)) ∙ h.ends)
            (omega (arith, full, h.some)) (omega (arith, full, h.long)) in
        let n = run flat index o (a + l) in
        let starts : a + l - n ≡ a = omega (arith, full) in
        let copies : a + l - n + o ≡ b = omega (arith, full, away) in
        subst (λ c. member c (last_scan flat index min_length).completed ≡ true)
          (λ k. (starts k, (copies k, full k))) found_it,
  )
    where
      every : IsScanned flat index min_length (suc (length flat)) (last_scan flat index min_length)
      every = scanned flat index min_length (inverted_index-IsIndex flat 0)
