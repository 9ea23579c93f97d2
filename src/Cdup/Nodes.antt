-- ===== src/Cdup/Nodes.antt =====
-- cdup/src/dag.py: the nodes of the data-flow graph, the rows of the matrix and an entry for each scope.
use csc512_distributed_syste.Prelude.{
  ℕ, zero, suc, Bool, true, false, Option, none, some, List, [], ◌∷◌, ◌++◌, map, member, select,
  length, if◌then◌else◌, leb, nat_eq, pair_eq,
}
use csc512_distributed_syste.Prelude.Dict.{Dict, put, get_or, keys}
use csc512_distributed_syste.Prelude.Sort.{sorted}
use csc512_distributed_syste.Prelude.Text.{Text, codes, text_eq}
use csc512_distributed_syste.Cdup.Ir.{Kind, Node, Segment, SegmentType, root, function, struct}
use csc512_distributed_syste.Cdup.Rows.{Row, Note}

-- The kind of a node: that of a row, or one of the synthetic kinds.
pub data NodeKind : Type 0 where
  row : Kind → NodeKind
  file_entry struct_def func_entry : NodeKind

pub data NodeNote : Type 0 where
  row_note : Note → NodeNote
  synthetic : NodeNote

-- A node before its id is assigned.
pub record Event : Type 0 where
  pub kind : NodeKind
  pub seg_id : Option ℕ
  pub scope_path : Option Text
  pub raw : Text
  pub reads : List Text
  pub writes : List Text
  pub decls : List Text
  pub note : NodeNote
  pub expr : Option Node

pub record DagNode : Type 0 where
  pub id : ℕ
  pub event : Event

unfoldable pub entry_kind : SegmentType → NodeKind
entry_kind root = file_entry
entry_kind struct = struct_def
entry_kind _ = func_entry

-- The parameters and the constants of the scope.
unfoldable pub entry_writes : Segment → List Text
entry_writes s =
    map (λ m. m.scoped_name) (select (λ m. m.param) s.memory)
    ++ map (λ m. m.scoped_name) s.constants

-- `_make_entry_node`
unfoldable pub make_entry_node : Segment → Event
unfolding entry_kind entry_writes
make_entry_node s = record {
  kind = entry_kind s.type;
  seg_id = some s.id;
  scope_path = some s.scope_path;
  raw = codes "entry(" ++ s.scope_path ++ codes ")";
  reads = [];
  writes = entry_writes s;
  decls = entry_writes s;
  note = synthetic;
  expr = none;
}

unfoldable pub row_event : Row → Event
row_event r = record {
  kind = row r.kind;
  seg_id = r.seg_id;
  scope_path = r.scope_path;
  raw = r.raw;
  reads = r.reads;
  writes = r.writes;
  decls = r.decls;
  note = row_note r.note;
  expr = r.expr;
}

abbrev pub is_entry_type : SegmentType → Bool
is_entry_type function = true
is_entry_type root = true
is_entry_type struct = true
is_entry_type _ = false

-- The index of the first row of each segment.
unfoldable pub first_rows : ℕ → List Event → Dict ℕ ℕ → Dict ℕ ℕ
first_rows i [] first = first
first_rows i (v ∷ vs) first = elim v.seg_id [
  | none ↦ first_rows (suc i) vs first
  | some sid ↦ first_rows (suc i) vs (if member sid (keys first) then first else put sid i first)
]

unfoldable pub insertions : Dict ℕ ℕ → ℕ → List Segment → List (ℕ × Event)
unfolding make_entry_node
insertions first size [] = []
insertions first size (s ∷ ss) =
    let rest = insertions first size ss in
    if is_entry_type s.type then (get_or s.id size first, make_entry_node s) ∷ rest else rest

-- `l.insert(i, x)`
unfoldable pub insert_at : ℕ → Event → List Event → List Event
insert_at zero v vs = v ∷ vs
insert_at (suc i) v [] = v ∷ []
insert_at (suc i) v (w ∷ vs) = w ∷ insert_at i v vs

unfoldable pub insert_all : List (ℕ × Event) → List Event → List Event
unfolding insert_at
insert_all [] vs = vs
insert_all (p ∷ ps) vs = insert_all ps (insert_at p.0 p.1 vs)

-- Step 2: the entry nodes stand before the first rows of their segments.
unfoldable pub with_entries : List Segment → List Event → List Event
unfolding first_rows insertions insert_all
with_entries segments vs =
    insert_all (sorted (λ p q. leb q.0 p.0) (insertions (first_rows 0 vs []) (length vs) segments))
      vs

unfoldable pub assign_ids : ℕ → List Event → List DagNode
assign_ids i [] = []
assign_ids i (v ∷ vs) = record { id = i; event = v } ∷ assign_ids (suc i) vs
