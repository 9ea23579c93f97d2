-- ===== src/Cdup/Matrix/Total.antt =====
-- `build_matrix` returns where the parser numbers a segment after its parent.
use csc512_distributed_syste.Prelude.{
  ℕ, ◌≤◌, ◌<◌, ◌≡◌, refl, sym, ◌∙◌, Bool, true, false, ◌&&◌, ◌||◌, some, List, [], ◌∷◌, ◌++◌, map,
  member, all, All, all-append, leb, ltb, arith, if◌then◌else◌, ◌==◌, nat_eq, nat_beq→eq, subset,
  subset_self, Bool-cases, inl, inr,
}
use csc512_distributed_syste.Prelude.Dict.{Dict, get, put, get_or, get-put}
use csc512_distributed_syste.Prelude.Sort.{sorted, all-sorted}
use csc512_distributed_syste.Prelude.Text.{text_eq}
use csc512_distributed_syste.Cdup.Ir.{Segment}
use csc512_distributed_syste.Cdup.Rows.{Lexer}
use csc512_distributed_syste.Cdup.Matrix.{
  walk_all, walk_root, index_loop, seg_by_id, children_loop, sort_values, build_children, context,
  root_ids, build_matrix, Matrix,
}
use csc512_distributed_syste.Cdup.Matrix.Walks.{
  returns, result-of_returns, returns-bind, all-weaken, IsNumbered, walk_root-returns,
  walk_all-returns,
}

-- What the parser ensures: a segment is numbered after its parent, or is its own parent.
abbrev pub IsOrdered : ℕ → List Segment → Type 0
IsOrdered fuel = All (λ s. (s.parent ≤ s.id) × (s.id < fuel))

abbrev ids : List Segment → List ℕ
ids = map (λ s. s.id)

returns-get-index_loop :
    (k : ℕ) (d : Dict ℕ Segment) (ss : List Segment)
    → returns (get k (index_loop d ss)) ≡ returns (get k d) || member k (ids ss)
unfolding index_loop member
returns-get-index_loop k d [] = ground arith
returns-get-index_loop k d (s ∷ ss) =
    returns-get-index_loop k (put s.id s d) ss ∙ rw (get-put s.id k s d) (ground arith)

get-index_loop-id :
    (k : ℕ) (d : Dict ℕ Segment) (ss : List Segment)
    → ((s : Segment) → get k d ≡ some s → s.id ≡ k)
    → (s : Segment) → get k (index_loop d ss) ≡ some s
    → s.id ≡ k
unfolding index_loop
get-index_loop-id k d [] f s h = f s h
get-index_loop-id k d (t ∷ ss) f s h =
    get-index_loop-id k (put t.id t d) ss
      (λ u p. ground (arith, get-put t.id k t d, p, f u, nat_beq→eq t.id k)) s h

all-get_or-sort_values :
    (p : ℕ → Bool) (id : ℕ) (d : Dict ℕ (List ℕ))
    → all p (get_or id [] (sort_values d)) ≡ all p (get_or id [] d)
unfolding sort_values get_or get all
all-get_or-sort_values p id [] = refl
all-get_or-sort_values p id ((k, ids) ∷ d) =
    ground (arith, all-sorted p leb ids, all-get_or-sort_values p id d)

get_or-put :
    (j k : ℕ) (w : List ℕ) (d : Dict ℕ (List ℕ))
    → get_or k [] (put j w d) ≡ (if j == k then w else get_or k [] d)
unfolding get_or
get_or-put j k w d = ground (arith, get-put j k w d)

module _ (p : ℕ → ℕ → Bool) where
  all-put :
      (k id : ℕ) (s : Segment) (d : Dict ℕ (List ℕ))
      → ((id : ℕ) → all (p id) (get_or id [] d) ≡ true)
      → p k s.id ≡ true
      → all (p id) (get_or id [] (put k (get_or k [] d ++ s.id ∷ []) d)) ≡ true
  all-put k id s d h new = elim (Bool-cases (k == id)) [
    | inl same ↦
        rw (get_or-put k id (get_or k [] d ++ s.id ∷ []) d, same)
          (all-append (p id) (get_or k [] d) (s.id ∷ [])
            ∙ rw (sym (nat_beq→eq k id same)) (unfold all in rw (h k, new) refl))
    | inr other ↦ rw (get_or-put k id (get_or k [] d ++ s.id ∷ []) d, other) (h id)
  ]

  -- What holds of each segment and its parent holds of all the children that are filed.
  all-children_loop :
      (d : Dict ℕ (List ℕ)) (ss : List Segment)
      → ((id : ℕ) → all (p id) (get_or id [] d) ≡ true)
      → All (λ s. s.id == s.parent ≡ false → p s.parent s.id ≡ true) ss
      → (id : ℕ) → all (p id) (get_or id [] (children_loop d ss)) ≡ true
  unfolding children_loop
  all-children_loop d [] h f id = h id
  all-children_loop d (s ∷ ss) h f id = elim (Bool-cases (s.id == s.parent)) [
    | inl e ↦ rw e (all-children_loop d ss h f.1 id)
    | inr e ↦ rw e (
        all-children_loop (put s.parent (get_or s.parent [] d ++ s.id ∷ []) d) ss
          (λ k. all-put s.parent k s d h (f.0 e)) f.1 id)
  ]

-- What holds of every id holds of the id of each child, which is numbered after its parent.
children-of_ordered :
    (fuel : ℕ) (q : ℕ → Bool) (ss : List Segment)
    → all q (ids ss) ≡ true
    → IsOrdered fuel ss
    → All (λ s. s.id == s.parent ≡ false → q s.id && ltb s.parent s.id ≡ true) ss
unfolding all
children-of_ordered fuel q [] h o = tt
children-of_ordered fuel q (s ∷ ss) h o =
    (λ e. ground (arith, o.0.0), children-of_ordered fuel q ss (ground arith) o.1)

bounded-of_ordered :
    (fuel k : ℕ) (ss : List Segment) → IsOrdered fuel ss → member k (ids ss) ≡ true → k < fuel
unfolding member
bounded-of_ordered fuel k [] o h = cc
bounded-of_ordered fuel k (s ∷ ss) o h =
    ground (arith, o.0.1, nat_beq→eq s.id k, bounded-of_ordered fuel k ss o.1)

root_ids-known :
    (q : ℕ → Bool) (ss : List Segment) → all q (ids ss) ≡ true → all q (root_ids ss) ≡ true
unfolding root_ids all
root_ids-known q [] h = refl
root_ids-known q (s ∷ ss) h = ground (arith, root_ids-known q ss (ground arith))

module _ (lexer : Lexer) (fuel : ℕ) (segments : List Segment) (o : IsOrdered fuel segments) where
  abbrev indexed : ℕ → Bool
  indexed k = returns (get k (seg_by_id segments))

  indexed_iff : (k : ℕ) → indexed k ≡ member k (ids segments)
  unfolding seg_by_id get
  indexed_iff k = returns-get-index_loop k [] segments

  all-indexed : all indexed (ids segments) ≡ true
  all-indexed =
      all-weaken (λ k. member k (ids segments)) indexed (ids segments) (λ k h. indexed_iff k ∙ h)
        (unfold subset in subset_self (ids segments))

  numbered : IsNumbered (context lexer segments) fuel
  unfolding build_children get_or get all
  numbered = record {
    children_later = λ id.
        all-get_or-sort_values (λ k. indexed k && ltb id k) id (children_loop [] segments)
        ∙ all-children_loop (λ id k. indexed k && ltb id k) [] segments (λ id. refl)
            (children-of_ordered fuel indexed segments all-indexed o) id;
    bounded = λ id h. bounded-of_ordered fuel id segments o (sym (indexed_iff id) ∙ h);
    filed = λ id s h. get-index_loop-id id [] segments (λ u p. cc) s (unfold seg_by_id in h);
  }

  -- If every segment is numbered after its parent or is its own parent, and the fuel is greater than
  -- every number, then there is a matrix: no key is missing, and the fuel does not run out.
  pub build_matrix-returns : (m : Matrix) × (build_matrix lexer fuel segments ≡ some m)
  unfolding build_matrix
  build_matrix-returns = result-of_returns (build_matrix lexer fuel segments) (
      returns-bind
        (walk_all (context lexer segments) (walk_root (context lexer segments) fuel)
          (sorted leb (root_ids segments)))
        _
        (walk_all-returns (context lexer segments) (walk_root (context lexer segments) fuel)
          (sorted leb (root_ids segments))
          (all-weaken indexed _ (sorted leb (root_ids segments))
            (λ k h. walk_root-returns (context lexer segments) fuel numbered fuel k h (omega arith))
            (all-sorted indexed leb (root_ids segments)
              ∙ root_ids-known indexed segments all-indexed)))
        λ rows p. refl)
