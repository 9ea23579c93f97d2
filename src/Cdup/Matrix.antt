-- ===== src/Cdup/Matrix.antt =====
-- cdup/src/matrix.py: the segment tree, the phi rows, the walk and `build_matrix`. The recursion over
-- child segments takes fuel: none means that it ran out, or that a key was missing, a KeyError.
pub mod Phis
pub mod Sound
pub mod Walks
pub mod Total
use csc512_distributed_syste.Prelude.{
  ℕ, zero, suc, ◌+◌, Bool, true, false, ◌&&◌, ◌||◌, not, Option, none, some, List, [], ◌∷◌, ◌++◌,
  map, member, ◌==◌, if◌then◌else◌, leb, ltb, nat_eq,
}
use csc512_distributed_syste.Prelude.Dict.{Dict, get, put, get_or}
use csc512_distributed_syste.Prelude.Sort.{sorted}
use csc512_distributed_syste.Prelude.Text.{Text, codes, text_eq, text_leb}
use csc512_distributed_syste.Cdup.Ir.{
  Kind, decl, assign, branch, loop_head, control, call, func_decl, expr, phi, Statement, Slot,
  Segment, SegmentType, root, function, loop, struct, class,
}
use csc512_distributed_syste.Cdup.Rows.{
  Lexer, Row, branch_reconvergence, loop_entry, from_keys, make_row, stmt_to_row,
}

-- `do` on partial results.
infixl 5 ◌>>=◌
abbrev pub ◌>>=◌ {ℓ κ} : {A : Type ℓ} {B : Type κ} → Option A → (A → Option B) → Option B
none >>= f = none
some a >>= f = f a

-- `_seg_by_id`: the last segment of an id wins.
unfoldable pub index_loop : Dict ℕ Segment → List Segment → Dict ℕ Segment
index_loop d [] = d
index_loop d (s ∷ ss) = index_loop (put s.id s d) ss

unfoldable pub seg_by_id : List Segment → Dict ℕ Segment
unfolding index_loop
seg_by_id = index_loop []

-- `_build_children`: the ids of the children of each parent; a segment that is its own parent is a root.
unfoldable pub children_loop : Dict ℕ (List ℕ) → List Segment → Dict ℕ (List ℕ)
children_loop d [] = d
children_loop d (s ∷ ss) =
    children_loop
      (if s.id == s.parent then d else put s.parent (get_or s.parent [] d ++ s.id ∷ []) d) ss

unfoldable pub sort_values : Dict ℕ (List ℕ) → Dict ℕ (List ℕ)
sort_values [] = []
sort_values ((k, ids) ∷ d) = (k, sorted leb ids) ∷ sort_values d

unfoldable pub build_children : List Segment → Dict ℕ (List ℕ)
unfolding children_loop sort_values
build_children segments = sort_values (children_loop [] segments)

abbrev pub slot_names : List Slot → List Text
slot_names = map (λ s. s.scoped_name)

unfoldable pub names_in_order : List Segment → List Text
names_in_order [] = []
names_in_order (s ∷ ss) = slot_names s.memory ++ slot_names s.constants ++ names_in_order ss

-- `_all_scoped_slots`
unfoldable pub all_scoped_slots : List Segment → List Text
unfolding names_in_order
all_scoped_slots segments = from_keys (names_in_order (sorted (λ s t. leb s.id t.id) segments))

-- What the walk reads: the index of the segments, the children, the columns, and the lexer.
pub record Context : Type 0 where
  pub lexer : Lexer
  pub seg_map : Dict ℕ Segment
  pub children_map : Dict ℕ (List ℕ)
  pub slot_index : List Text

abbrev pub is_block : Kind → Bool
is_block branch = true
is_block loop_head = true
is_block _ = false

abbrev pub is_branch : SegmentType → Bool
is_branch SegmentType.branch = true
is_branch _ = false

abbrev pub is_loop : SegmentType → Bool
is_loop loop = true
is_loop _ = false

module _ (c : Context) where
  abbrev pub row_of : Segment → Statement → Row
  row_of s stmt = stmt_to_row c.lexer stmt s.id s.scope_path c.slot_index

  abbrev pub children_of : ℕ → List ℕ
  children_of id = get_or id [] c.children_map

  -- `written.setdefault(w, []).append(cscope)` for each slot
  unfoldable pub file_writes : Text → List Text → Dict Text (List Text) → Dict Text (List Text)
  file_writes scope [] written = written
  file_writes scope (w ∷ ws) written =
      file_writes scope ws (put w (get_or w [] written ++ scope ∷ []) written)

  unfoldable pub file_stmts :
      Segment → List Statement → Dict Text (List Text) → Dict Text (List Text)
  unfolding file_writes
  file_stmts s [] written = written
  file_stmts s (stmt ∷ stmts) written =
      let row = row_of s stmt in
      file_stmts s stmts (file_writes s.scope_path (row.writes ++ row.decls) written)

  unfoldable pub file_branches : List ℕ → Dict Text (List Text) → Option (Dict Text (List Text))
  unfolding file_stmts
  file_branches [] written = some written
  file_branches (id ∷ ids) written = do
    s ← get id c.seg_map
    file_branches ids (file_stmts s s.stmts written)

  unfoldable pub branch_phi : Text → List Text → Row
  branch_phi slot sources =
      make_row phi none none (codes "phi(" ++ slot ++ codes ")") sources (slot ∷ []) []
        branch_reconvergence none

  unfoldable pub branch_phis : Dict Text (List Text) → List Row
  unfolding branch_phi
  branch_phis [] = []
  branch_phis ((slot, sources) ∷ written) = branch_phi slot sources ∷ branch_phis written

  -- `_phi_rows_for_branch_group`; for no child it gives no row, which is `flush_branch_group`.
  unfoldable pub phi_rows_for_branch_group : List ℕ → Option (List Row)
  unfolding file_branches branch_phis
  phi_rows_for_branch_group ids = do written ← file_branches ids []; some (branch_phis written)

  unfoldable pub written_by : Segment → List Statement → List Text
  written_by s [] = []
  written_by s (stmt ∷ stmts) =
      let row = row_of s stmt in row.writes ++ row.decls ++ written_by s stmts

  -- The loop over child segments, for a function `go` of one child.
  unfoldable pub collect_children : (ℕ → Option (List Text)) → List ℕ → Option (List Text)
  collect_children go [] = some []
  collect_children go (id ∷ ids) = do
    own ← go id
    rest ← collect_children go ids
    some (own ++ rest)

  -- `_collect_writes_in_subtree`; the set is a list, from which `sorted` takes each slot once.
  unfoldable pub collect_writes_in_subtree : ℕ → ℕ → Option (List Text)
  unfolding written_by collect_children
  collect_writes_in_subtree zero id = none
  collect_writes_in_subtree (suc fuel) id = do
    s ← get id c.seg_map
    below ← collect_children (collect_writes_in_subtree fuel) (children_of id)
    some (written_by s s.stmts ++ below)

  unfoldable pub loop_phi : Segment → Text → Row
  loop_phi s slot =
      make_row phi (some s.id) (some s.scope_path) (codes "phi(" ++ slot ++ codes ")") (slot ∷ [])
        (slot ∷ []) [] loop_entry none

  -- `_phi_rows_for_loop`
  unfoldable pub phi_rows_for_loop : ℕ → Segment → Option (List Row)
  unfolding collect_writes_in_subtree loop_phi
  phi_rows_for_loop fuel s = do
    written ← collect_writes_in_subtree fuel s.id
    some (map (loop_phi s) (sorted text_leb (from_keys written)))

  -- The rows of segments that are walked one after the other.
  unfoldable pub walk_all : (ℕ → Option (List Row)) → List ℕ → Option (List Row)
  walk_all go [] = some []
  walk_all go (id ∷ ids) = do own ← go id; rest ← walk_all go ids; some (own ++ rest)

  -- The loop over the statements: the children not yet consumed, and the pending group of branches.
  unfoldable pub walk_stmts :
      (ℕ → Option (List Row)) → Segment → List Statement → List ℕ → List ℕ → Option (List Row)
  unfolding phi_rows_for_branch_group walk_all
  walk_stmts go s [] children group = do
    flushed ← phi_rows_for_branch_group group
    rest ← walk_all go children
    some (flushed ++ rest)
  walk_stmts go s (stmt ∷ stmts) [] group =
      if is_block stmt.kind
      then (do rest ← walk_stmts go s stmts [] group; some (row_of s stmt ∷ rest))
      else do
        flushed ← phi_rows_for_branch_group group
        rest ← walk_stmts go s stmts [] []
        some (flushed ++ row_of s stmt ∷ rest)
  walk_stmts go s (stmt ∷ stmts) (id ∷ children) group =
      if is_block stmt.kind
      then (do
        child ← get id c.seg_map
        flushed ← if is_branch child.type then some [] else phi_rows_for_branch_group group
        own ← go id
        rest ←
            walk_stmts go s stmts children (if is_branch child.type then group ++ id ∷ [] else [])
        some (row_of s stmt ∷ (flushed ++ (own ++ rest))))
      else do
        flushed ← phi_rows_for_branch_group group
        rest ← walk_stmts go s stmts (id ∷ children) []
        some (flushed ++ row_of s stmt ∷ rest)

  -- `_walk_segment`
  unfoldable pub walk_segment : ℕ → ℕ → Option (List Row)
  unfolding phi_rows_for_loop walk_stmts
  walk_segment zero id = none
  walk_segment (suc fuel) id = do
    s ← get id c.seg_map
    entry ← if is_loop s.type then phi_rows_for_loop (suc fuel) s else some []
    body ← walk_stmts (walk_segment fuel) s s.stmts (children_of id) []
    some (entry ++ body)

  -- The root's own statements, then its children.
  unfoldable pub walk_root : ℕ → ℕ → Option (List Row)
  unfolding walk_segment
  walk_root fuel id = do
    s ← get id c.seg_map
    below ← walk_all (walk_segment fuel) (children_of id)
    some (map (row_of s) s.stmts ++ below)

unfoldable pub root_ids : List Segment → List ℕ
root_ids [] = []
root_ids (s ∷ ss) = let rest = root_ids ss in if s.id == s.parent then s.id ∷ rest else rest

pub record Matrix : Type 0 where
  pub slots : List Text
  pub rows : List Row

abbrev pub context : Lexer → List Segment → Context
context lexer segments = record {
  lexer = lexer;
  seg_map = seg_by_id segments;
  children_map = build_children segments;
  slot_index = all_scoped_slots segments;
}

-- `build_matrix`
unfoldable pub build_matrix : Lexer → ℕ → List Segment → Option Matrix
unfolding walk_root root_ids
build_matrix lexer fuel segments = do
  rows ←
      walk_all (context lexer segments) (walk_root (context lexer segments) fuel)
        (sorted leb (root_ids segments))
  some (record { slots = all_scoped_slots segments; rows = rows })
