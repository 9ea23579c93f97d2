-- ===== src/Cdup/Clones/Scan/Runs.antt =====
-- What the scan of cdup/src/detect.py reports: the longest runs of statements that occur again.
use csc512_distributed_syste.Prelude.{
  ℕ, zero, suc, ◌+◌, ◌-◌, ◌≤◌, ◌<◌, ◌≡◌, refl, subst, Bool, true, false, not, Option, none, some,
  List, [], ◌∷◌, ◌++◌, member, member-append, select, get_elem?, ltb, leb, leb→le, ltb→lt, All-both,
  nat_eq, if◌then◌else◌, All, All-weaken, All-select, All-append, pair_eq, arith, Bool-cases, inl,
  inr,
}
use csc512_distributed_syste.Prelude.Dict.{Dict, get_or}
use csc512_distributed_syste.Prelude.Text.{Text, text_eq}
use csc512_distributed_syste.Cdup.Clones.Scan.{Entry, Flat, Run, Scan, ended}
use csc512_distributed_syste.Cdup.Clones.Scan.Counts.{
  get_or-select, found, found-member, IsCount, select-IsCount, entries-got, ended-member,
}

-- Whether the `i`-th statement occurs again `o` later, among the indexed ones.
module _ (flat : Flat) (index : Dict Text (List ℕ)) where
  unfoldable pub hit : ℕ → ℕ → Bool
  unfolding found
  hit o i = elim (get_elem? flat i) [
    | none ↦ false
    | some x ↦ elim x [ none ↦ false | some e ↦ found i o (get_or e.norm [] index) ]
  ]

  -- How many statements in a row before the `i`-th one do.
  unfoldable pub run : ℕ → ℕ → ℕ
  unfolding hit
  run o zero = 0
  run o (suc i) = let before = run o i in if hit o i then suc before else 0

  -- A reported run is as long as can be, and not too short.
  pub record IsMaximal (min_length : ℕ) (c : Run) : Type 0 where
    pub later : c.0 < c.1.0
    pub long : min_length ≤ c.1.1
    pub some : 1 ≤ c.1.1
    pub full : run (c.1.0 - c.0) (c.0 + c.1.1) ≡ c.1.1
    pub last : hit (c.1.0 - c.0) (c.0 + c.1.1) ≡ false

  -- The state of the scan before the `i`-th entry.
  pub record IsScanned (min_length i : ℕ) (s : Scan) : Type 0 where
    pub count : IsCount s.active
    pub counted : (o : ℕ) → get_or o 0 s.active ≡ run o i
    pub sound : All (λ c. IsMaximal min_length c) s.completed
    pub complete :
        (o j : ℕ)
        → j < i
        → hit o j ≡ false
        → 1 ≤ run o j
        → min_length ≤ run o j
        → member (j - run o j, (j - run o j + o, run o j)) s.completed ≡ true

  pub run_le : (o i : ℕ) → run o i ≤ i
  unfolding run
  run_le o zero = omega arith
  run_le o (suc i) = ground (arith, run_le o i)

  found_zero : (i : ℕ) (ms : List ℕ) → found i 0 ms ≡ false
  found_zero i ms = ground (arith, found-member i 0 ms)

  hit_zero : (i : ℕ) → hit 0 i ≡ false
  unfolding hit
  hit_zero i = at (get_elem? flat i)
    where
      at :
          (x : Option (Option Entry))
          → (elim x [
            | none ↦ false
            | some y ↦ elim y [ none ↦ false | some e ↦ found i 0 (get_or e.norm [] index) ]
          ])
            ≡ false
      at none = refl
      at (some none) = refl
      at (some (some e)) = found_zero i (get_or e.norm [] index)

  run_zero : (i : ℕ) → run 0 i ≡ 0
  unfolding run
  run_zero zero = refl
  run_zero (suc i) = rw (hit_zero i) refl

  nonzero : (o i : ℕ) → 1 ≤ run o i → 1 ≤ o
  nonzero zero i h = absurd (omega (arith, h, run_zero i))
  nonzero (suc o) i h = omega arith

  one_IsMaximal :
      (min_length i o l : ℕ)
      → min_length ≤ l
      → run o i ≡ l
      → 1 ≤ l
      → hit o i ≡ false
      → IsMaximal min_length (i - l, (i - l + o, l))
  one_IsMaximal min_length i o l a b c d =
      let short = run_le o i in
      let distance : o ≡ i - l + o - (i - l) = omega arith in
      let end : i ≡ i - l + l = omega (arith, b, short) in
      let apart : 1 ≤ o = nonzero o i (omega (arith, b, c)) in
      record {
        later = omega (arith, apart);
        long = a;
        some = c;
        full = subst (λ n. run n (i - l + l) ≡ l) distance (subst (λ n. run o n ≡ l) end b);
        last = subst (λ n. hit n (i - l + l) ≡ false) distance (subst (λ n. hit o n ≡ false) end d);
      }

  pub ended-IsMaximal :
      (min_length i : ℕ) (d : Dict ℕ ℕ)
      → All (λ a. (run a.0 i ≡ a.1) × ((1 ≤ a.1) × (hit a.0 i ≡ false))) d
      → All (λ c. IsMaximal min_length c) (ended min_length i d)
  unfolding ended select
  ended-IsMaximal min_length i [] h = tt
  ended-IsMaximal min_length i ((o, l) ∷ d) h = elim (Bool-cases (leb min_length l)) [
    | inl e ↦ rw e (
      one_IsMaximal min_length i o l (leb→le _ _ e) h.0.0 h.0.1.0 h.0.1.1,
      ended-IsMaximal min_length i d h.1,
    )
    | inr e ↦ rw e (ended-IsMaximal min_length i d h.1)
  ]

  module _ (min_length i : ℕ) (s : Scan) (grown : Dict ℕ ℕ × List ℕ)
      (scanned : IsScanned min_length i s) (kept : IsCount grown.0)
      (counts : (o : ℕ) → get_or o 0 grown.0 ≡ run o i + (if hit o i then 1 else 0))
      (current : (o : ℕ) → member o grown.1 ≡ hit o i) where
    abbrev pub stale : Dict ℕ ℕ
    stale = select (λ a. not (member a.0 grown.1)) grown.0

    stale-ended : All (λ a. (run a.0 i ≡ a.1) × ((1 ≤ a.1) × (hit a.0 i ≡ false))) stale
    stale-ended =
        All-weaken
          (λ a. ((get_or a.0 0 grown.0 ≡ a.1) × (1 ≤ a.1)) × (not (member a.0 grown.1) ≡ true))
          (λ a. (run a.0 i ≡ a.1) × ((1 ≤ a.1) × (hit a.0 i ≡ false))) stale
          (λ a h.
            let missed : hit a.0 i ≡ false = ground (arith, h.1, current a.0) in
            (ground (arith, counts a.0, h.0.0, missed), (h.0.1, missed)))
          (All-select (λ a. (get_or a.0 0 grown.0 ≡ a.1) × (1 ≤ a.1))
            (λ a. not (member a.0 grown.1)) grown.0
            (All-both (λ a. get_or a.0 0 grown.0 ≡ a.1) (λ a. 1 ≤ a.1) grown.0
              (entries-got grown.0 kept.once) kept.positive))

    stale-got : (o : ℕ) → hit o i ≡ false → get_or o 0 stale ≡ run o i
    stale-got o h =
        ground
          (arith, get_or-select (λ k. not (member k grown.1)) o grown.0, counts o, current o, h)

    unfoldable pub closed : Scan
    closed = record {
      active = select (λ a. member a.0 grown.1) grown.0;
      completed = s.completed ++ ended min_length i stale;
    }

    closed_complete :
        (o j : ℕ)
        → j < suc i
        → hit o j ≡ false
        → 1 ≤ run o j
        → min_length ≤ run o j
        → member (j - run o j, (j - run o j + o, run o j)) (s.completed ++ ended min_length i stale)
          ≡ true
    closed_complete o j h a b c = elim (Bool-cases (ltb j i)) [
      | inl e ↦
          let old = scanned.complete o j (ltb→lt j i e) a b c in
          ground (
            arith,
            old,
            member-append (j - run o j, (j - run o j + o, run o j)) s.completed
                (ended min_length i stale),
          )
      | inr e ↦
          let same : i ≡ j = ground (arith, e, h) in
          subst
            (λ n.
              hit o n ≡ false
              → 1 ≤ run o n
              → min_length ≤ run o n
              → member (n - run o n, (n - run o n + o, run o n))
                  (s.completed ++ ended min_length i stale)
                ≡ true)
            same
            (λ u v w. ground (
              arith,
              ended-member min_length i o (run o i) stale (stale-got o u) v w,
              member-append (i - run o i, (i - run o i + o, run o i)) s.completed
                  (ended min_length i stale),
            ))
            a b c
    ]

    pub closed-IsScanned : IsScanned min_length (suc i) closed
    unfolding run closed
    closed-IsScanned = record {
      count = select-IsCount (λ a. member a.0 grown.1) grown.0 kept;
      counted =
          λ o. ground (arith, get_or-select (λ k. member k grown.1) o grown.0, counts o, current o);
      sound =
          All-append (λ c. IsMaximal min_length c) s.completed (ended min_length i stale)
            scanned.sound (ended-IsMaximal min_length i stale stale-ended);
      complete = closed_complete;
    }
