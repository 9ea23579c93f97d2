-- ===== src/Cdup/Matrix/Sound.antt =====
-- Every row of the matrix speaks of columns.
use csc512_distributed_syste.Prelude.{
  ℕ, zero, suc, ◌≡◌, Option, some, List, [], ◌∷◌, ◌++◌, map, All, All-append, Distinct,
  if◌then◌else◌, inl, nat_eq, leb, subst,
}
use csc512_distributed_syste.Prelude.Dict.{get}
use csc512_distributed_syste.Prelude.Sort.{sorted}
use csc512_distributed_syste.Prelude.Text.{text_eq}
use csc512_distributed_syste.Cdup.Ir.{Statement, Segment}
use csc512_distributed_syste.Cdup.Rows.{Lexer, Row}
use csc512_distributed_syste.Cdup.Rows.Columns.{from_keys_lem}
use csc512_distributed_syste.Cdup.Matrix.{
  Context, row_of, children_of, phi_rows_for_branch_group, phi_rows_for_loop, walk_all, is_block,
  is_branch, walk_stmts, is_loop, walk_segment, walk_root, Matrix, context, root_ids,
  all_scoped_slots, build_matrix,
}
use csc512_distributed_syste.Cdup.Matrix.Phis.{
  IsSound, Ensures, Ensures-bind, Ensures-any, Ensures-if, RowsIn, row_of-IsRow,
  phi_rows_for_branch_group-in, phi_rows_for_loop-in,
}

module _ (c : Context) where
  joined : (xs ys : List Row) → (RowsIn c) xs → (RowsIn c) ys → (RowsIn c) (xs ++ ys)
  joined = All-append (IsSound c.slot_index)

  walk_all-in :
      (go : ℕ → Option (List Row)) (ids : List ℕ)
      → ((id : ℕ) → Ensures (RowsIn c) (go id))
      → Ensures (RowsIn c) (walk_all c go ids)
  unfolding walk_all
  walk_all-in go [] h = tt
  walk_all-in go (id ∷ ids) h = Ensures-bind (RowsIn c) (RowsIn c) (go id) _ (h id) λ own p.
      Ensures-bind (RowsIn c) (RowsIn c) (walk_all c go ids) _ (walk_all-in go ids h)
        λ rest q. joined own rest p q

  module _ (go : ℕ → Option (List Row)) (go-in : (id : ℕ) → Ensures (RowsIn c) (go id))
      (s : Segment) where
    walk_stmts-in :
        (stmts : List Statement) (children group : List ℕ)
        → Ensures (RowsIn c) (walk_stmts c go s stmts children group)
    unfolding walk_stmts
    walk_stmts-in [] children group =
        Ensures-bind (RowsIn c) (RowsIn c) (phi_rows_for_branch_group c group) _
          (phi_rows_for_branch_group-in c group)
          λ flushed p.
            Ensures-bind (RowsIn c) (RowsIn c) (walk_all c go children) _
              (walk_all-in go children go-in) λ rest q. joined flushed rest p q
    walk_stmts-in (stmt ∷ stmts) [] group =
        Ensures-if (RowsIn c) (is_block stmt.kind) _ _
          (Ensures-bind (RowsIn c) (RowsIn c) (walk_stmts c go s stmts [] group) _
            (walk_stmts-in stmts [] group) λ rest q. (inl (row_of-IsRow c s stmt), q))
          (Ensures-bind (RowsIn c) (RowsIn c) (phi_rows_for_branch_group c group) _
            (phi_rows_for_branch_group-in c group)
            λ flushed p.
              Ensures-bind (RowsIn c) (RowsIn c) (walk_stmts c go s stmts [] []) _
                (walk_stmts-in stmts [] [])
                λ rest q.
                  joined flushed (row_of c s stmt ∷ rest) p (inl (row_of-IsRow c s stmt), q))
    walk_stmts-in (stmt ∷ stmts) (id ∷ children) group =
        Ensures-if (RowsIn c) (is_block stmt.kind) _ _
          (Ensures-bind (λ (t : Segment). Unit {0}) (RowsIn c) (get id c.seg_map) _
            (Ensures-any (get id c.seg_map))
            λ child u.
              let next = if is_branch child.type then group ++ id ∷ [] else [] in
              Ensures-bind (RowsIn c) (RowsIn c)
                (if is_branch child.type then some [] else phi_rows_for_branch_group c group) _
                (Ensures-if (RowsIn c) (is_branch child.type) (some [])
                  (phi_rows_for_branch_group c group) tt (phi_rows_for_branch_group-in c group))
                λ flushed p. Ensures-bind (RowsIn c) (RowsIn c) (go id) _ (go-in id) λ own q.
                  Ensures-bind (RowsIn c) (RowsIn c) (walk_stmts c go s stmts children next) _
                    (walk_stmts-in stmts children next)
                    λ rest r. (
                      inl (row_of-IsRow c s stmt),
                      joined flushed (own ++ rest) p (joined own rest q r),
                    ))
          (Ensures-bind (RowsIn c) (RowsIn c) (phi_rows_for_branch_group c group) _
            (phi_rows_for_branch_group-in c group)
            λ flushed p.
              Ensures-bind (RowsIn c) (RowsIn c) (walk_stmts c go s stmts (id ∷ children) []) _
                (walk_stmts-in stmts (id ∷ children) [])
                λ rest q.
                  joined flushed (row_of c s stmt ∷ rest) p (inl (row_of-IsRow c s stmt), q))

  walk_segment-in : (fuel id : ℕ) → Ensures (RowsIn c) (walk_segment c fuel id)
  unfolding walk_segment
  walk_segment-in zero id = tt
  walk_segment-in (suc fuel) id =
      Ensures-bind (λ (t : Segment). Unit {0}) (RowsIn c) (get id c.seg_map) _
        (Ensures-any (get id c.seg_map))
        λ s u.
          Ensures-bind (RowsIn c) (RowsIn c)
            (if is_loop s.type then phi_rows_for_loop c (suc fuel) s else some []) _
            (Ensures-if (RowsIn c) (is_loop s.type) (phi_rows_for_loop c (suc fuel) s) (some [])
              (phi_rows_for_loop-in c (suc fuel) s) tt)
            λ entry p.
              Ensures-bind (RowsIn c) (RowsIn c)
                (walk_stmts c (walk_segment c fuel) s s.stmts (children_of c id) []) _
                (walk_stmts-in (walk_segment c fuel) (walk_segment-in fuel) s s.stmts
                  (children_of c id) [])
                λ body q. joined entry body p q

  own_rows-in : (s : Segment) (stmts : List Statement) → (RowsIn c) (map (row_of c s) stmts)
  own_rows-in s [] = tt
  own_rows-in s (stmt ∷ stmts) = (inl (row_of-IsRow c s stmt), own_rows-in s stmts)

  walk_root-in : (fuel id : ℕ) → Ensures (RowsIn c) (walk_root c fuel id)
  unfolding walk_root
  walk_root-in fuel id =
      Ensures-bind (λ (t : Segment). Unit {0}) (RowsIn c) (get id c.seg_map) _
        (Ensures-any (get id c.seg_map))
        λ s u.
          Ensures-bind (RowsIn c) (RowsIn c) (walk_all c (walk_segment c fuel) (children_of c id)) _
            (walk_all-in (walk_segment c fuel) (children_of c id) (walk_segment-in fuel))
            λ below q. joined (map (row_of c s) s.stmts) below (own_rows-in s s.stmts) q

build_matrix-in :
    (lexer : Lexer) (fuel : ℕ) (segments : List Segment)
    → Ensures
        (λ m. Distinct m.slots × All (IsSound m.slots) m.rows)
        (build_matrix lexer fuel segments)
unfolding build_matrix
build_matrix-in lexer fuel segments =
    let c = context lexer segments in
    Ensures-bind (All (IsSound c.slot_index))
      (λ (m : Matrix). Distinct m.slots × All (IsSound m.slots) m.rows)
      (walk_all c (walk_root c fuel) (sorted leb (root_ids segments))) _
      (walk_all-in c (walk_root c fuel) (sorted leb (root_ids segments)) (walk_root-in c fuel))
      λ rows h. (unfold all_scoped_slots in (from_keys_lem _).0, h)

-- The matrix of any segments has each column once, and every row either lists only columns in its
-- reads, writes and declarations, each once, and has a scope if it is the phi row of a loop, or joins
-- branches: then it declares nothing, none of its reads stands twice, and it writes something, columns
-- only.
pub build_matrix-IsSound :
    (lexer : Lexer) (fuel : ℕ) (segments : List Segment) (m : Matrix)
    → build_matrix lexer fuel segments ≡ some m
    → Distinct m.slots × All (IsSound m.slots) m.rows
build_matrix-IsSound lexer fuel segments m h =
    subst (Ensures (λ m. Distinct m.slots × All (IsSound m.slots) m.rows)) h
      (build_matrix-in lexer fuel segments)
