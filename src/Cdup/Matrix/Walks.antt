-- ===== src/Cdup/Matrix/Walks.antt =====
-- The walk over numbered segments returns: no key is missing, and each level of nesting takes one unit
-- of the fuel.
use csc512_distributed_syste.Prelude.{
  ℕ, zero, suc, ◌+◌, ◌≤◌, ◌<◌, ◌≡◌, refl, Bool, true, false, ◌&&◌, Option, none, some, List, [],
  ◌∷◌, ◌++◌, all, all-append, ltb, arith, if◌then◌else◌, nat_eq,
}
use csc512_distributed_syste.Prelude.Dict.{Dict, get}
use csc512_distributed_syste.Prelude.Text.{Text, text_eq}
use csc512_distributed_syste.Cdup.Ir.{Statement, Segment}
use csc512_distributed_syste.Cdup.Rows.{Row}
use csc512_distributed_syste.Cdup.Matrix.{
  Context, children_of, file_stmts, file_branches, phi_rows_for_branch_group, collect_children,
  collect_writes_in_subtree, phi_rows_for_loop, walk_all, is_block, is_branch, is_loop, walk_stmts,
  walk_segment, walk_root, ◌>>=◌,
}

-- There is a result.
abbrev pub returns {ℓ} : {A : Type ℓ} → Option A → Bool
returns none = false
returns (some a) = true

pub result-of_returns {ℓ} : {A : Type ℓ} (m : Option A) → returns m ≡ true → (a : A) × (m ≡ some a)
result-of_returns none h = cc
result-of_returns (some a) h = (a, refl)

pub returns-bind {ℓ κ} :
    {A : Type ℓ} {B : Type κ} (m : Option A) (f : A → Option B)
    → returns m ≡ true
    → ((a : A) → m ≡ some a → returns (f a) ≡ true)
    → returns (m >>= f) ≡ true
returns-bind none f h k = cc
returns-bind (some a) f h k = k a refl

pub returns-if {ℓ} :
    {A : Type ℓ} (b : Bool) (m n : Option A)
    → returns m ≡ true
    → returns n ≡ true
    → returns (if b then m else n) ≡ true
returns-if true m n h k = h
returns-if false m n h k = k

pub all-weaken {ℓ} :
    {A : Type ℓ} (p q : A → Bool) (xs : List A)
    → ((x : A) → p x ≡ true → q x ≡ true)
    → all p xs ≡ true
    → all q xs ≡ true
unfolding all
all-weaken p q [] f h = refl
all-weaken p q (x ∷ xs) f h = ground (arith, f x (ground arith), all-weaken p q xs f (ground arith))

module _ (c : Context) where
  abbrev known : ℕ → Bool
  known id = returns (get id c.seg_map)

  file_branches-returns :
      (ids : List ℕ) (written : Dict Text (List Text))
      → all known ids ≡ true
      → returns (file_branches c ids written) ≡ true
  unfolding file_branches all
  file_branches-returns [] written h = refl
  file_branches-returns (id ∷ ids) written h =
      returns-bind (get id c.seg_map) _ (ground arith)
        λ s p. file_branches-returns ids (file_stmts c s s.stmts written) (ground arith)

  phi_rows_for_branch_group-returns :
      (ids : List ℕ) → all known ids ≡ true → returns (phi_rows_for_branch_group c ids) ≡ true
  unfolding phi_rows_for_branch_group
  phi_rows_for_branch_group-returns ids h =
      returns-bind (file_branches c ids []) _ (file_branches-returns ids [] h) λ written p. refl

  collect_children-returns :
      (go : ℕ → Option (List Text)) (ids : List ℕ)
      → all (λ id. returns (go id)) ids ≡ true
      → returns (collect_children c go ids) ≡ true
  unfolding collect_children all
  collect_children-returns go [] h = refl
  collect_children-returns go (id ∷ ids) h = returns-bind (go id) _ (ground arith) λ own p.
      returns-bind (collect_children c go ids) _ (collect_children-returns go ids (ground arith))
        λ rest q. refl

  pub walk_all-returns :
      (go : ℕ → Option (List Row)) (ids : List ℕ)
      → all (λ id. returns (go id)) ids ≡ true
      → returns (walk_all c go ids) ≡ true
  unfolding walk_all all
  walk_all-returns go [] h = refl
  walk_all-returns go (id ∷ ids) h = returns-bind (go id) _ (ground arith) λ own p.
      returns-bind (walk_all c go ids) _ (walk_all-returns go ids (ground arith)) λ rest q. refl

  module _ (go : ℕ → Option (List Row)) (s : Segment) where
    walk_stmts-returns :
        (stmts : List Statement) (children group : List ℕ)
        → all (λ id. returns (go id)) children ≡ true
        → all known children ≡ true
        → all known group ≡ true
        → returns (walk_stmts c go s stmts children group) ≡ true
    unfolding walk_stmts all
    walk_stmts-returns [] children group h k g =
        returns-bind (phi_rows_for_branch_group c group) _
          (phi_rows_for_branch_group-returns group g)
          λ flushed p.
            returns-bind (walk_all c go children) _ (walk_all-returns go children h) λ rest q. refl
    walk_stmts-returns (stmt ∷ stmts) [] group h k g =
        returns-if (is_block stmt.kind) _ _
          (returns-bind (walk_stmts c go s stmts [] group) _
            (walk_stmts-returns stmts [] group refl refl g) λ rest q. refl)
          (returns-bind (phi_rows_for_branch_group c group) _
            (phi_rows_for_branch_group-returns group g)
            λ flushed p.
              returns-bind (walk_stmts c go s stmts [] []) _
                (walk_stmts-returns stmts [] [] refl refl refl) λ rest q. refl)
    walk_stmts-returns (stmt ∷ stmts) (id ∷ children) group h k g =
        returns-if (is_block stmt.kind) _ _
          (returns-bind (get id c.seg_map) _ (ground arith) λ child u.
            returns-bind
              (if is_branch child.type then some [] else phi_rows_for_branch_group c group) _
              (returns-if (is_branch child.type) (some []) (phi_rows_for_branch_group c group) refl
                (phi_rows_for_branch_group-returns group g))
              λ flushed p. returns-bind (go id) _ (ground arith) λ own q.
                let next = if is_branch child.type then group ++ id ∷ [] else [] in
                returns-bind (walk_stmts c go s stmts children next) _
                  (walk_stmts-returns stmts children next (ground arith) (ground arith)
                    (ground (arith, all-append known group (id ∷ []))))
                  λ rest r. refl)
          (returns-bind (phi_rows_for_branch_group c group) _
            (phi_rows_for_branch_group-returns group g)
            λ flushed p.
              returns-bind (walk_stmts c go s stmts (id ∷ children) []) _
                (walk_stmts-returns stmts (id ∷ children) [] h k refl) λ rest q. refl)

  -- Every child has a segment and a greater number than its parent, and the numbers have a bound.
  pub record IsNumbered (bound : ℕ) : Type 0 where
    pub children_later : (id : ℕ) → all (λ k. known k && ltb id k) (children_of c id) ≡ true
    pub bounded : (id : ℕ) → known id ≡ true → id < bound
    pub filed : (id : ℕ) (s : Segment) → get id c.seg_map ≡ some s → s.id ≡ id

  module _ (bound : ℕ) (n : IsNumbered bound) where
    -- What holds of each later segment holds of each child.
    children-all :
        (id : ℕ) (q : ℕ → Bool)
        → ((k : ℕ) → known k ≡ true → id < k → q k ≡ true)
        → all q (children_of c id) ≡ true
    children-all id q f =
        all-weaken (λ k. known k && ltb id k) q (children_of c id)
          (λ k h. f k (ground arith) (ground arith)) (n.children_later id)

    collect_writes_in_subtree-returns :
        (fuel id : ℕ)
        → known id ≡ true
        → bound ≤ fuel + id
        → returns (collect_writes_in_subtree c fuel id) ≡ true
    unfolding collect_writes_in_subtree
    collect_writes_in_subtree-returns zero id h b = absurd (omega (arith, n.bounded id h))
    collect_writes_in_subtree-returns (suc fuel) id h b = returns-bind (get id c.seg_map) _ h λ s p.
        returns-bind (collect_children c (collect_writes_in_subtree c fuel) (children_of c id)) _
          (collect_children-returns (collect_writes_in_subtree c fuel) (children_of c id) (
            children-all id _
              λ k known l. collect_writes_in_subtree-returns fuel k known (omega (arith, b, l))))
          λ below q. refl

    phi_rows_for_loop-returns :
        (fuel : ℕ) (s : Segment)
        → known s.id ≡ true
        → bound ≤ fuel + s.id
        → returns (phi_rows_for_loop c fuel s) ≡ true
    unfolding phi_rows_for_loop
    phi_rows_for_loop-returns fuel s h b =
        returns-bind (collect_writes_in_subtree c fuel s.id) _
          (collect_writes_in_subtree-returns fuel s.id h b) λ written p. refl

    walk_segment-returns :
        (fuel id : ℕ)
        → known id ≡ true
        → bound ≤ fuel + id
        → returns (walk_segment c fuel id) ≡ true
    unfolding walk_segment
    walk_segment-returns zero id h b = absurd (omega (arith, n.bounded id h))
    walk_segment-returns (suc fuel) id h b = returns-bind (get id c.seg_map) _ h λ s p.
        returns-bind (if is_loop s.type then phi_rows_for_loop c (suc fuel) s else some []) _
          (returns-if (is_loop s.type) (phi_rows_for_loop c (suc fuel) s) (some [])
            (phi_rows_for_loop-returns (suc fuel) s (rw (n.filed id s p) h)
              (omega (arith, n.filed id s p, b)))
            refl)
          λ entry q.
            returns-bind (walk_stmts c (walk_segment c fuel) s s.stmts (children_of c id) []) _
              (walk_stmts-returns (walk_segment c fuel) s s.stmts (children_of c id) []
                (children-all id _
                  λ k known l. walk_segment-returns fuel k known (omega (arith, b, l)))
                (children-all id _ λ k known l. known) (unfold all in refl))
              λ body r. refl

    pub walk_root-returns :
        (fuel id : ℕ) → known id ≡ true → bound ≤ fuel → returns (walk_root c fuel id) ≡ true
    unfolding walk_root
    walk_root-returns fuel id h b = returns-bind (get id c.seg_map) _ h λ s p.
        returns-bind (walk_all c (walk_segment c fuel) (children_of c id)) _
          (walk_all-returns (walk_segment c fuel) (children_of c id) (
            children-all id _ λ k known l. walk_segment-returns fuel k known (omega (arith, b, l))))
          λ below q. refl
