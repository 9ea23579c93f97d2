-- ===== src/Cdup/Matrix/Phis.antt =====
-- The phi rows speak of columns.
use csc512_distributed_syste.Prelude.{
  ℕ, zero, suc, ◌≡◌, refl, ◌∙◌, Bool, true, false, Option, none, some, List, [], ◌∷◌, ◌++◌, map,
  member, subset, subset-append, all, All, Distinct, arith, if◌then◌else◌, ◌⊎◌, inl, inr,
  Bool-cases, nat_eq,
}
use csc512_distributed_syste.Prelude.Dict.{Dict, get, put, get_or, keys, keys-put}
use csc512_distributed_syste.Prelude.Sort.{sorted}
use csc512_distributed_syste.Prelude.Text.{Text, text_eq, text_leb}
use csc512_distributed_syste.Cdup.Ir.{Statement, Segment}
use csc512_distributed_syste.Cdup.Rows.{Row, branch_reconvergence, from_keys, make_row}
use csc512_distributed_syste.Cdup.Rows.Columns.{
  IsRow, is_attached, stmt_to_row-IsRow, from_keys_lem, from_keys-subset, subset-sorted,
}
use csc512_distributed_syste.Cdup.Matrix.{
  Context, row_of, children_of, file_writes, file_stmts, file_branches, branch_phi, branch_phis,
  phi_rows_for_branch_group, written_by, collect_children, collect_writes_in_subtree, loop_phi,
  phi_rows_for_loop, ◌>>=◌,
}

-- A row that joins branches: it writes something, and what it writes are columns; it declares nothing,
-- and its reads, the scopes of the branches, stand once each.
pub record IsJoin (slot_index : List Text) (row : Row) : Type 0 where
  pub joins : row.note ≡ branch_reconvergence
  pub writes_in : subset row.writes slot_index ≡ true
  pub decls_none : row.decls ≡ []
  pub attached : is_attached row ≡ true
  pub reads_once : Distinct row.reads

abbrev pub IsSound : List Text → Row → Type 0
IsSound slot_index row = IsRow slot_index row ⊎ IsJoin slot_index row

-- What holds of the result, if there is one.
abbrev pub Ensures {ℓ κ} : {A : Type ℓ} → (A → Type κ) → Option A → Type κ
Ensures P none = Unit
Ensures P (some a) = P a

pub Ensures-bind {ℓ κ μ ν} :
    {A : Type ℓ} {B : Type κ} (P : A → Type μ) (Q : B → Type ν) (m : Option A) (f : A → Option B)
    → Ensures P m
    → ((a : A) → P a → Ensures Q (f a))
    → Ensures Q (m >>= f)
Ensures-bind P Q none f h k = tt
Ensures-bind P Q (some a) f h k = k a h

pub Ensures-any {ℓ} : {A : Type ℓ} (m : Option A) → Ensures (λ (a : A). Unit {0}) m
Ensures-any none = tt
Ensures-any (some a) = tt

pub Ensures-if {ℓ κ} :
    {A : Type ℓ} (Q : A → Type κ) (b : Bool) (m n : Option A)
    → Ensures Q m
    → Ensures Q n
    → Ensures Q (if b then m else n)
Ensures-if Q true m n h k = h
Ensures-if Q false m n h k = k

subset-keys-put :
    (k : Text) (v : List Text) (d : Dict Text (List Text)) (index : List Text)
    → member k index ≡ true
    → subset (keys d) index ≡ true
    → subset (keys (put k v d)) index ≡ true
subset-keys-put k v d index h s = elim (Bool-cases (member k (keys d))) [
  | inl old ↦ rw (keys-put k v d, old) s
  | inr new ↦
      rw (keys-put k v d, new, subset-append (keys d) (k ∷ []) index, s)
        (unfold subset all in ground (arith, h))
]

module _ (c : Context) where
  -- The rows so far are sound.
  abbrev pub RowsIn : List Row → Type 0
  RowsIn = All (IsSound c.slot_index)

  pub row_of-IsRow : (s : Segment) (stmt : Statement) → IsRow c.slot_index (row_of c s stmt)
  row_of-IsRow s stmt = stmt_to_row-IsRow c.lexer stmt s.id s.scope_path c.slot_index

  file_writes-in :
      (scope : Text) (ws : List Text) (written : Dict Text (List Text))
      → subset ws c.slot_index ≡ true
      → subset (keys written) c.slot_index ≡ true
      → subset (keys (file_writes c scope ws written)) c.slot_index ≡ true
  unfolding file_writes
  file_writes-in scope [] written h k = k
  file_writes-in scope (w ∷ ws) written h k =
      file_writes-in scope ws (put w (get_or w [] written ++ scope ∷ []) written)
        (unfold subset all in ground (arith, h))
        (subset-keys-put w _ written c.slot_index (unfold subset all in ground (arith, h)) k)

  touched-in :
      (s : Segment) (stmt : Statement)
      → subset ((row_of c s stmt).writes ++ (row_of c s stmt).decls) c.slot_index ≡ true
  touched-in s stmt =
      let r = row_of-IsRow s stmt in
      rw (subset-append (row_of c s stmt).writes (row_of c s stmt).decls c.slot_index)
        (ground arith)

  file_stmts-in :
      (s : Segment) (stmts : List Statement) (written : Dict Text (List Text))
      → subset (keys written) c.slot_index ≡ true
      → subset (keys (file_stmts c s stmts written)) c.slot_index ≡ true
  unfolding file_stmts
  file_stmts-in s [] written h = h
  file_stmts-in s (stmt ∷ stmts) written h =
      file_stmts-in s stmts _ (file_writes-in s.scope_path _ written (touched-in s stmt) h)

  file_branches-in :
      (ids : List ℕ) (written : Dict Text (List Text))
      → subset (keys written) c.slot_index ≡ true
      → Ensures (λ d. subset (keys d) c.slot_index ≡ true) (file_branches c ids written)
  unfolding file_branches
  file_branches-in [] written h = h
  file_branches-in (id ∷ ids) written h =
      Ensures-bind (λ (s : Segment). Unit {0}) (λ d. subset (keys d) c.slot_index ≡ true)
        (get id c.seg_map) _ (Ensures-any (get id c.seg_map))
        (λ s u.
          file_branches-in ids (file_stmts c s s.stmts written) (file_stmts-in s s.stmts written h))

  single_in :
      (s : Text) → member s c.slot_index ≡ true → subset (from_keys (s ∷ [])) c.slot_index ≡ true
  single_in s h = from_keys-subset (s ∷ []) c.slot_index ∙ unfold subset all in ground (arith, h)

  branch_phis-in :
      (written : Dict Text (List Text))
      → subset (keys written) c.slot_index ≡ true
      → RowsIn (branch_phis c written)
  unfolding branch_phis keys subset all
  branch_phis-in [] h = tt
  branch_phis-in ((slot, sources) ∷ written) h = (
    inr (
        unfold branch_phi make_row in
        record {
          joins = refl;
          writes_in = single_in slot (ground arith);
          decls_none = unfold from_keys in refl;
          attached = unfold from_keys member in refl;
          reads_once = (from_keys_lem sources).0;
        }),
    branch_phis-in written (ground arith),
  )

  pub phi_rows_for_branch_group-in :
      (ids : List ℕ) → Ensures RowsIn (phi_rows_for_branch_group c ids)
  unfolding phi_rows_for_branch_group
  phi_rows_for_branch_group-in ids =
      Ensures-bind (λ d. subset (keys d) c.slot_index ≡ true) RowsIn (file_branches c ids []) _
        (file_branches-in ids [] (unfold subset keys all in refl)) branch_phis-in

  -- A set of columns.
  abbrev WritesIn : List Text → Type 0
  WritesIn ws = subset ws c.slot_index ≡ true

  written_by-in : (s : Segment) (stmts : List Statement) → WritesIn (written_by c s stmts)
  unfolding written_by
  written_by-in s [] = unfold subset all in refl
  written_by-in s (stmt ∷ stmts) =
      let r = row_of-IsRow s stmt in
      rw (
        subset-append ((row_of c s stmt).writes ++ (row_of c s stmt).decls) (written_by c s stmts)
            c.slot_index,
        touched-in s stmt,
        written_by-in s stmts,
      )

  collect_children-in :
      (go : ℕ → Option (List Text)) (ids : List ℕ)
      → ((id : ℕ) → Ensures WritesIn (go id))
      → Ensures WritesIn (collect_children c go ids)
  unfolding collect_children
  collect_children-in go [] h = unfold subset all in refl
  collect_children-in go (id ∷ ids) h = Ensures-bind WritesIn WritesIn (go id) _ (h id) λ own p.
      Ensures-bind WritesIn WritesIn (collect_children c go ids) _ (collect_children-in go ids h)
        λ rest q. subset-append own rest c.slot_index ∙ ground (arith, p, q)

  collect_writes_in_subtree-in :
      (fuel id : ℕ) → Ensures WritesIn (collect_writes_in_subtree c fuel id)
  unfolding collect_writes_in_subtree
  collect_writes_in_subtree-in zero id = tt
  collect_writes_in_subtree-in (suc fuel) id =
      Ensures-bind (λ (s : Segment). Unit {0}) WritesIn (get id c.seg_map) _
        (Ensures-any (get id c.seg_map))
        λ s u.
          Ensures-bind WritesIn WritesIn
            (collect_children c (collect_writes_in_subtree c fuel) (children_of c id)) _
            (collect_children-in _ (children_of c id) (collect_writes_in_subtree-in fuel))
            λ below p.
              subset-append (written_by c s s.stmts) below c.slot_index
              ∙ ground (arith, p, written_by-in s s.stmts)

  loop_phis-in :
      (s : Segment) (slots : List Text) → WritesIn slots → RowsIn (map (loop_phi c s) slots)
  unfolding loop_phi make_row subset all
  loop_phis-in s [] h = tt
  loop_phis-in s (slot ∷ slots) h =
      let once = (from_keys_lem (slot ∷ [])).0 in
      (
        inl (record {
          reads_in = single_in slot (ground arith);
          writes_in = single_in slot (ground arith);
          decls_in = unfold from_keys in refl;
          reads_once = once;
          writes_once = once;
          decls_once = (from_keys_lem []).0;
          attached = refl;
        }),
        loop_phis-in s slots (ground arith),
      )

  pub phi_rows_for_loop-in : (fuel : ℕ) (s : Segment) → Ensures RowsIn (phi_rows_for_loop c fuel s)
  unfolding phi_rows_for_loop
  phi_rows_for_loop-in fuel s =
      Ensures-bind WritesIn RowsIn (collect_writes_in_subtree c fuel s.id) _
        (collect_writes_in_subtree-in fuel s.id)
        λ written h. loop_phis-in s (sorted text_leb (from_keys written)) (
          subset-sorted (from_keys written) c.slot_index
          ∙ from_keys-subset written c.slot_index
          ∙ h)
