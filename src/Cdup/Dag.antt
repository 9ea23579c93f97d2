-- ===== src/Cdup/Dag.antt =====
-- cdup/src/dag.py: the data-flow graph of a dependency matrix. none stands for an exception: a join
-- row that writes nothing (IndexError), or a loop's phi row without a scope (TypeError).
pub mod Sources
pub mod Scanned
pub mod Flows
pub mod Total
use csc512_distributed_syste.Prelude.{
  ℕ, zero, suc, ◌≡◌, ◌↔◌, refl, Bool, true, false, ◌&&◌, ◌||◌, Option, none, some, List, [], ◌∷◌,
  ◌++◌, map, member, select, length, ◌==◌, Eq, if◌then◌else◌, leb, nat_eq, pair_eq,
}
use csc512_distributed_syste.Prelude.Dict.{Dict, get, put, get_or, keys}
use csc512_distributed_syste.Prelude.Sort.{sorted}
use csc512_distributed_syste.Prelude.Text.{Text, codes, text_eq, starts_with}
use csc512_distributed_syste.Cdup.Ir.{
  Kind, Node, Slot, Segment, SegmentType, root, function, struct, class,
}
use csc512_distributed_syste.Cdup.Rows.{Row, Note, no_note, branch_reconvergence, loop_entry}
use csc512_distributed_syste.Cdup.Matrix.{Matrix, ◌>>=◌}
use csc512_distributed_syste.Cdup.Nodes.{
  NodeKind, NodeNote, row_note, synthetic, Event, DagNode, row_event, with_entries, assign_ids,
}

pub data EdgeKind : Type 0 where
  data_flow phi_loop phi_branch : EdgeKind

pub record Edge : Type 0 where
  pub from_id : ℕ
  pub to_id : ℕ
  pub slot : Text
  pub kind : EdgeKind

-- What tells edges apart.
abbrev pub Key : Type 0
Key = ℕ × (ℕ × Text)

abbrev pub key : Edge → Key
key e = (e.from_id, (e.to_id, e.slot))

pub record Edges : Type 0 where
  pub edges : List Edge
  pub seen : List Key

-- `_add_edge`
unfoldable pub add_edge : Edge → Edges → Edges
add_edge e s =
    if member (key e) s.seen
    then s
    else record { edges = s.edges ++ e ∷ []; seen = s.seen ++ key e ∷ [] }

-- Step 3: the state of the scan.
pub record Scan : Type 0 where
  pub edges : Edges
  pub last_write : Dict Text ℕ
  pub scope_last_write : Dict (Text × Text) ℕ

-- The edges to a join, from the last write of its slot in each of the scopes it reads.
unfoldable pub join_edges : Dict (Text × Text) ℕ → ℕ → Text → List Text → Edges → Edges
unfolding add_edge
join_edges written nid slot [] s = s
join_edges written nid slot (scope ∷ scopes) s =
    join_edges written nid slot scopes (elim (get (scope, slot) written) [
      | none ↦ s
      | some src ↦
          add_edge (record { from_id = src; to_id = nid; slot = slot; kind = phi_branch }) s
    ])

unfoldable pub read_edges : Dict Text ℕ → ℕ → EdgeKind → List Text → Edges → Edges
unfolding add_edge
read_edges written nid k [] s = s
read_edges written nid k (slot ∷ slots) s =
    read_edges written nid k slots (elim (get slot written) [
      | none ↦ s
      | some src ↦ add_edge (record { from_id = src; to_id = nid; slot = slot; kind = k }) s
    ])

unfoldable pub record_writes : ℕ → List Text → Dict Text ℕ → Dict Text ℕ
record_writes nid [] written = written
record_writes nid (slot ∷ slots) written = record_writes nid slots (put slot nid written)

unfoldable pub record_scope_writes :
    ℕ → Option Text → List Text → Dict (Text × Text) ℕ → Dict (Text × Text) ℕ
record_scope_writes nid none slots written = written
record_scope_writes nid (some scope) [] written = written
record_scope_writes nid (some scope) (slot ∷ slots) written =
    record_scope_writes nid (some scope) slots (put (scope, slot) nid written)

-- The edges to one node.
unfoldable pub node_edges : DagNode → Scan → Option Edges
unfolding join_edges read_edges
node_edges n s = elim n.event.note [
  | row_note branch_reconvergence ↦ elim n.event.writes [
    | [] ↦ none
    | slot ∷ slots ↦ some (join_edges s.scope_last_write n.id slot n.event.reads s.edges)
  ]
  | row_note no_note ↦ some (read_edges s.last_write n.id data_flow n.event.reads s.edges)
  | row_note loop_entry ↦ some (read_edges s.last_write n.id phi_loop n.event.reads s.edges)
  | synthetic ↦ some (read_edges s.last_write n.id data_flow n.event.reads s.edges)
]

unfoldable pub scan : List DagNode → Scan → Option Scan
unfolding node_edges record_writes record_scope_writes
scan [] s = some s
scan (n ∷ ns) s = do
  edges ← node_edges n s
  scan ns (record {
    edges = edges;
    last_write = record_writes n.id n.event.writes s.last_write;
    scope_last_write =
        record_scope_writes n.id n.event.scope_path n.event.writes s.scope_last_write;
  })

-- Step 4: the last node after `phi` that writes the slot in a scope that begins as the phi row's does.
unfoldable pub last_in_loop : DagNode → Text → List DagNode → Option ℕ → Option (Option ℕ)
last_in_loop phi slot [] last = some last
last_in_loop phi slot (n ∷ ns) last =
    let skipped = last_in_loop phi slot ns last in
    let taken = last_in_loop phi slot ns (some n.id) in
    if leb n.id phi.id then skipped else elim n.event.scope_path [
      | none ↦ skipped
      | some scope ↦ elim phi.event.scope_path [
        | none ↦ none
        | some phi_scope ↦
            if starts_with scope phi_scope && member slot n.event.writes then taken else skipped
      ]
    ]

unfoldable pub back_edges : List DagNode → DagNode → List Text → Edges → Option Edges
unfolding last_in_loop add_edge
back_edges nodes phi [] s = some s
back_edges nodes phi (slot ∷ slots) s = do
  last ← last_in_loop phi slot nodes none
  back_edges nodes phi slots (elim last [
    | none ↦ s
    | some src ↦ add_edge (record { from_id = src; to_id = phi.id; slot = slot; kind = phi_loop }) s
  ])

abbrev pub is_loop_entry : NodeNote → Bool
is_loop_entry (row_note loop_entry) = true
is_loop_entry _ = false

unfoldable pub close_loops : List DagNode → List DagNode → Edges → Option Edges
unfolding back_edges
close_loops nodes [] s = some s
close_loops nodes (n ∷ ns) s = do
  closed ← if is_loop_entry n.event.note then back_edges nodes n n.event.writes s else some s
  close_loops nodes ns closed

pub record Dag : Type 0 where
  pub nodes : List DagNode
  pub edges : List Edge

abbrev pub dag_nodes : List Segment → Matrix → List DagNode
dag_nodes segments matrix = assign_ids 0 (with_entries segments (map row_event matrix.rows))

abbrev pub no_edges : Scan
no_edges = record {
  edges = record { edges = []; seen = [] };
  last_write = [];
  scope_last_write = [];
}

-- `build_dag`
unfoldable pub build_dag : List Segment → Matrix → Option Dag
unfolding with_entries assign_ids scan close_loops row_event
build_dag segments matrix = do
  scanned ← scan (dag_nodes segments matrix) no_edges
  closed ← close_loops (dag_nodes segments matrix) (dag_nodes segments matrix) scanned.edges
  some (record { nodes = dag_nodes segments matrix; edges = closed.edges })
