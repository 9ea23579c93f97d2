-- ===== src/Cdup/Clones/Scan/Index.antt =====
-- The inverted index of cdup/src/detect.py.
use csc512_distributed_syste.Prelude.{
  ℕ, zero, suc, ◌+◌, ◌≤◌, ◌<◌, ◌≡◌, refl, ap, sym, ◌∙◌, subst, Bool, true, false, none, some, List,
  [], ◌∷◌, ◌++◌, member, select, length, get_elem?, leb, ◌==◌, nat_eq, if◌then◌else◌, Distinct,
  arith, Bool-cases, append_assoc, append-nil, inl, inr, sound,
}
use csc512_distributed_syste.Prelude.Dict.{
  Dict, get, get_or, put, keys, get-put, get-eq-none, put-Distinct,
}
use csc512_distributed_syste.Prelude.Text.{Text, text_eq}
use csc512_distributed_syste.Cdup.Clones.Scan.{Flat, index_entries, inverted_index}

-- The positions of a norm from the `i`-th entry on.
unfoldable pub positions : Text → ℕ → Flat → List ℕ
positions norm i [] = []
positions norm i (none ∷ flat) = positions norm (suc i) flat
positions norm i (some e ∷ flat) =
    let later = positions norm (suc i) flat in if e.norm == norm then i ∷ later else later

get_or-put_list :
    (k j : Text) (v : List ℕ) (d : Dict Text (List ℕ))
    → get_or j [] (put k v d) ≡ (if k == j then v else get_or j [] d)
unfolding get_or
get_or-put_list k j v d = ground (arith, get-put k j v d)

index_entries-get_or :
    (norm : Text) (i : ℕ) (flat : Flat) (d : Dict Text (List ℕ))
    → get_or norm [] (index_entries i flat d) ≡ get_or norm [] d ++ positions norm i flat
unfolding index_entries positions
index_entries-get_or norm i [] d = sym (append-nil (get_or norm [] d))
index_entries-get_or norm i (none ∷ flat) d = index_entries-get_or norm (suc i) flat d
index_entries-get_or norm i (some e ∷ flat) d =
    let longer = put e.norm (get_or e.norm [] d ++ i ∷ []) d in
    let got = get_or-put_list e.norm norm (get_or e.norm [] d ++ i ∷ []) d in
    index_entries-get_or norm (suc i) flat longer ∙ at (e.norm == norm) refl got
  where
    at :
        (b : Bool)
        → e.norm == norm ≡ b
        → get_or norm [] (put e.norm (get_or e.norm [] d ++ i ∷ []) d)
          ≡ (if b then get_or e.norm [] d ++ i ∷ [] else get_or norm [] d)
        → get_or norm [] (put e.norm (get_or e.norm [] d ++ i ∷ []) d)
            ++ positions norm (suc i) flat
          ≡ get_or norm [] d
            ++ (if b then i ∷ positions norm (suc i) flat else positions norm (suc i) flat)
    at true q g =
        ap (λ l. l ++ positions norm (suc i) flat) g
        ∙ append_assoc (get_or e.norm [] d) (i ∷ []) (positions norm (suc i) flat)
        ∙ ap (λ n. get_or n [] d ++ i ∷ positions norm (suc i) flat) (sound e.norm norm q)
    at false q g = ap (λ l. l ++ positions norm (suc i) flat) g

index_entries-Distinct :
    (i : ℕ) (flat : Flat) (d : Dict Text (List ℕ))
    → Distinct (keys d)
    → Distinct (keys (index_entries i flat d))
unfolding index_entries
index_entries-Distinct i [] d h = h
index_entries-Distinct i (none ∷ flat) d h = index_entries-Distinct (suc i) flat d h
index_entries-Distinct i (some e ∷ flat) d h =
    index_entries-Distinct (suc i) flat (put e.norm (get_or e.norm [] d ++ i ∷ []) d)
      (put-Distinct e.norm (get_or e.norm [] d ++ i ∷ []) d h)

-- Whether the `j`-th entry is a statement with the norm.
unfoldable pub has_norm : Flat → Text → ℕ → Bool
has_norm flat norm j = elim (get_elem? flat j) [
  | none ↦ false
  | some x ↦ elim x [ none ↦ false | some e ↦ e.norm == norm ]
]

positions_ge :
    (norm : Text) (i j : ℕ) (flat : Flat) → member j (positions norm i flat) ≡ true → i ≤ j
unfolding positions member
positions_ge norm i j [] h = cc
positions_ge norm i j (none ∷ flat) h = omega (arith, positions_ge norm (suc i) j flat h)
positions_ge norm i j (some e ∷ flat) h = ground (arith, h, positions_ge norm (suc i) j flat)

pub positions-Distinct : (norm : Text) (i : ℕ) (flat : Flat) → Distinct (positions norm i flat)
unfolding positions member
positions-Distinct norm i [] = tt
positions-Distinct norm i (none ∷ flat) = positions-Distinct norm (suc i) flat
positions-Distinct norm i (some e ∷ flat) = elim (Bool-cases (e.norm == norm)) [
  | inl q ↦
      rw q (ground (arith, positions_ge norm (suc i) i flat), positions-Distinct norm (suc i) flat)
  | inr q ↦ rw q (positions-Distinct norm (suc i) flat)
]

shifted : (i k : ℕ) → i + suc k ≡ suc i + k
shifted i k = omega arith

before-positions :
    (norm : Text) (i j : ℕ) (flat : Flat) → j < i → member j (positions norm i flat) ≡ false
before-positions norm i j flat h = elim (Bool-cases (member j (positions norm i flat))) [
  | inl e ↦ absurd (omega (arith, h, positions_ge norm i j flat e))
  | inr e ↦ e
]

pub member-positions :
    (norm : Text) (i k : ℕ) (flat : Flat)
    → member (i + k) (positions norm i flat) ≡ has_norm flat norm k
unfolding positions member has_norm
member-positions norm i k [] = refl
member-positions norm i zero (none ∷ flat) =
    before-positions norm (suc i) (i + 0) flat (omega arith)
member-positions norm i zero (some e ∷ flat) =
    ground (arith, before-positions norm (suc i) (i + 0) flat (omega arith))
member-positions norm i (suc k) (none ∷ flat) =
    ap (λ n. member n (positions norm (suc i) flat)) (omega arith)
    ∙ member-positions norm (suc i) k flat
member-positions norm i (suc k) (some e ∷ flat) =
    let later =
      ap (λ n. member n (positions norm (suc i) flat)) (shifted i k)
      ∙ member-positions norm (suc i) k flat in
    ground (arith, later)

-- The filter on the frequency keeps all positions of a norm or none.
pub select-got :
    (p : List ℕ → Bool) (k : Text) (d : Dict Text (List ℕ))
    → Distinct (keys d)
    → get_or k [] (select (λ e. p e.1) d) ≡ (if p (get_or k [] d) then get_or k [] d else [])
unfolding get_or get keys select member
select-got p k [] h = ground arith
select-got p k ((j, v) ∷ d) h =
    let later = select-got p k d h.1 in
    elim (Bool-cases (j == k)) [
      | inl e ↦
          let gone = get-eq-none k d (subst (λ n. member n (keys d) ≡ false) (sound j k e) h.0) in
          elim (Bool-cases (p v)) [
            | inl f ↦ rw f (ground (arith, e, f))
            | inr f ↦ rw f (ground (arith, e, f, later, gone))
          ]
      | inr e ↦ elim (Bool-cases (p v)) [
        | inl f ↦ rw f (ground (arith, e, f, later))
        | inr f ↦ rw f (ground (arith, e, f, later))
      ]
    ]

-- The positions of a norm that the scan looks up.
pub inverted_index-get_or :
    (max_freq : ℕ) (flat : Flat) (norm : Text)
    → get_or norm [] (inverted_index max_freq flat) ≡ (
        if leb 1 max_freq
        then (if leb (length (positions norm 0 flat)) max_freq then positions norm 0 flat else [])
        else positions norm 0 flat)
unfolding inverted_index get_or get keys
inverted_index-get_or max_freq flat norm =
    let got = index_entries-get_or norm 0 flat [] in
    let kept =
      select-got (λ l. leb (length l) max_freq) norm (index_entries 0 flat [])
        (index_entries-Distinct 0 flat [] tt) in
    elim (Bool-cases (leb 1 max_freq)) [ inl e ↦ rw e (rw got at kept) | inr e ↦ rw e got ]
