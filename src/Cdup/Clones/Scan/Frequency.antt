-- ===== src/Cdup/Clones/Scan/Frequency.antt =====
-- The limit on the frequency of statements in cdup/src/detect.py.
use csc512_distributed_syste.Prelude.{
  ℕ, ◌+◌, ◌-◌, ◌≤◌, ◌<◌, ◌≡◌, refl, ◌∙◌, subst, true, false, Option, none, some, [], length,
  get_elem?, leb, leb→le, le→leb, All, All-weaken, arith, Bool-cases, inl, inr,
}
use csc512_distributed_syste.Prelude.Dict.{get_or}
use csc512_distributed_syste.Prelude.Text.{Text, text_eq}
use csc512_distributed_syste.Cdup.Clones.Scan.{
  Entry, Flat, Run, inverted_index, completed_clones, scan_entry,
}
use csc512_distributed_syste.Cdup.Clones.Scan.Counts.{found}
use csc512_distributed_syste.Cdup.Clones.Scan.Runs.{hit, IsMaximal}
use csc512_distributed_syste.Cdup.Clones.Scan.Exact.{scanned}
use csc512_distributed_syste.Cdup.Clones.Scan.Index.{positions, inverted_index-get_or}
use csc512_distributed_syste.Cdup.Clones.Scan.Reported.{run-hits, inverted_index-IsIndex}

-- How often the norm of the `i`-th entry occurs.
unfoldable pub frequency : Flat → ℕ → ℕ
unfolding positions
frequency flat i = elim (get_elem? flat i) [
  | none ↦ 0
  | some x ↦ elim x [ none ↦ 0 | some e ↦ length (positions e.norm 0 flat) ]
]

-- The reported run and its copy have no statement that occurs more than the limit.
pub record IsRare (flat : Flat) (max_freq : ℕ) (c : Run) : Type 0 where
  rare : (k : ℕ) → k < c.1.1 → frequency flat (c.0 + k) ≤ max_freq

module _ (flat : Flat) (max_freq : ℕ) (limited : 1 ≤ max_freq) where
  found-rare :
      (norm : Text) (o i : ℕ)
      → found i o (get_or norm [] (inverted_index max_freq flat)) ≡ true
      → length (positions norm 0 flat) ≤ max_freq
  unfolding found
  found-rare norm o i h = elim (Bool-cases (leb (length (positions norm 0 flat)) max_freq)) [
    | inl e ↦ leb→le _ _ e
    | inr e ↦
        let limit : leb 1 max_freq ≡ true = le→leb 1 max_freq limited in
        let empty : get_or norm [] (inverted_index max_freq flat) ≡ [] =
          inverted_index-get_or max_freq flat norm ∙ rw (limit, e) refl in
        let no : false ≡ true = (rw empty at h) in cc
  ]

  hit-frequency :
      (o i : ℕ) → hit flat (inverted_index max_freq flat) o i ≡ true → frequency flat i ≤ max_freq
  unfolding hit frequency
  hit-frequency o i h = at (get_elem? flat i) h
    where
      at :
          (x : Option (Option Entry))
          → (elim x [
            | none ↦ false
            | some y ↦ elim y [
              | none ↦ false
              | some e ↦ found i o (get_or e.norm [] (inverted_index max_freq flat))
            ]
          ])
            ≡ true
          → (elim x [
            | none ↦ 0
            | some y ↦ elim y [ none ↦ 0 | some e ↦ length (positions e.norm 0 flat) ]
          ])
            ≤ max_freq
      at none k = omega arith
      at (some none) k = omega arith
      at (some (some e)) k = found-rare e.norm o i k

  -- With a limit on the frequency, no reported run has a statement whose norm occurs more often.
  pub completed_clones-IsRare :
      (min_length : ℕ)
      → All (λ c. IsRare flat max_freq c) (completed_clones min_length max_freq flat)
  unfolding completed_clones scan_entry
  completed_clones-IsRare min_length =
      let index = inverted_index max_freq flat in
      All-weaken (λ c. IsMaximal flat index min_length c) (λ c. IsRare flat max_freq c) _
        (λ c h. record {
          rare = λ k b.
              let o = c.1.0 - c.0 in
              let full = h.full in
              hit-frequency o (c.0 + k) (
                subst (λ n. hit flat index o n ≡ true) (omega (arith, full))
                  (run-hits flat index o (c.0 + c.1.1) k (omega (arith, full, b))));
        })
        (scanned flat index min_length (inverted_index-IsIndex flat max_freq)).sound
