-- ===== src/Cdup/Dag/Flows.antt =====
-- The data-flow graph of any matrix has flows only, each once.
use csc512_distributed_syste.Prelude.{
  member-of_all, ℕ, ◌≡◌, refl, true, ◌&&◌, Option, none, some, List, [], ◌∷◌, map, member, all, All,
  Distinct, if◌then◌else◌, leb, nat_eq, pair_eq, arith, Bool-cases, inl, inr, subst,
}
use csc512_distributed_syste.Prelude.Text.{Text, text_eq, starts_with}
use csc512_distributed_syste.Cdup.Ir.{Segment}
use csc512_distributed_syste.Cdup.Matrix.{Matrix}
use csc512_distributed_syste.Cdup.Matrix.Phis.{Ensures, Ensures-bind, Ensures-if}
use csc512_distributed_syste.Cdup.Nodes.{DagNode}
use csc512_distributed_syste.Cdup.Dag.{
  phi_loop, key, Edges, add_edge, Scan, scan, last_in_loop, back_edges, is_loop_entry, close_loops,
  Dag, dag_nodes, build_dag, no_edges,
}
use csc512_distributed_syste.Cdup.Dag.Sources.{
  writes_at, uses_at, IsFlow, AreFlows, add_edge-AreFlows,
}
use csc512_distributed_syste.Cdup.Dag.Scanned.{IsListed, All-IsListed, scan-AreFlows}

module _ (nodes : List DagNode) where
  -- The slot's writer, if there is one.
  abbrev IsWriting : Text → Option ℕ → Type 0
  IsWriting slot = Ensures (λ (id : ℕ). writes_at nodes id slot ≡ true)

  -- One node of the search: `x` is what it gives if the node is taken, `y` if it is passed.
  search-IsWriting :
      (slot : Text) (n : DagNode) (scope phi_scope : Option Text) (x y : Option (Option ℕ))
      → (member slot n.event.writes ≡ true → Ensures (IsWriting slot) x)
      → Ensures (IsWriting slot) y
      → Ensures (IsWriting slot) (elim scope [
        | none ↦ y
        | some sc ↦ elim phi_scope [
          | none ↦ none
          | some ps ↦ if starts_with sc ps && member slot n.event.writes then x else y
        ]
      ])
  search-IsWriting slot n none phi_scope x y f h = h
  search-IsWriting slot n (some sc) none x y f h = tt
  search-IsWriting slot n (some sc) (some ps) x y f h =
      elim (Bool-cases (starts_with sc ps && member slot n.event.writes)) [
        | inl m ↦ rw m (f (ground (arith, m)))
        | inr m ↦ rw m h
      ]

  last_in_loop-IsWriting :
      (phi : DagNode) (slot : Text) (ns : List DagNode) (last : Option ℕ)
      → All (IsListed nodes) ns
      → IsWriting slot last
      → Ensures (IsWriting slot) (last_in_loop phi slot ns last)
  unfolding last_in_loop
  last_in_loop-IsWriting phi slot [] last l h = h
  last_in_loop-IsWriting phi slot (n ∷ ns) last l h =
      let passed = last_in_loop-IsWriting phi slot ns last l.1 h in
      Ensures-if (IsWriting slot) (leb n.id phi.id) _ _ passed (
        search-IsWriting slot n n.event.scope_path phi.event.scope_path
          (last_in_loop phi slot ns (some n.id)) (last_in_loop phi slot ns last)
          (λ m.
            last_in_loop-IsWriting phi slot ns (some n.id) l.1
              (member-of_all (writes_at nodes n.id) slot n.event.writes l.0.writes_listed m))
          passed)

  module _ (listed : All (IsListed nodes) nodes) where
    back_edges-AreFlows :
        (phi : DagNode) (slots : List Text) (s : Edges)
        → all (uses_at nodes phi.id) slots ≡ true
        → AreFlows nodes s
        → Ensures (AreFlows nodes) (back_edges nodes phi slots s)
    unfolding back_edges all
    back_edges-AreFlows phi [] s u a = a
    back_edges-AreFlows phi (slot ∷ slots) s u a =
        Ensures-bind (IsWriting slot) (AreFlows nodes) (last_in_loop phi slot nodes none) _
          (last_in_loop-IsWriting phi slot nodes none listed tt)
          λ last w. back_edges-AreFlows phi slots _ (ground arith) (go last w)
      where
        go :
            (o : Option ℕ)
            → IsWriting slot o
            → AreFlows nodes (elim o [
              | none ↦ s
              | some src ↦
                  add_edge
                    (record { from_id = src; to_id = phi.id; slot = slot; kind = phi_loop })
                    s
            ])
        go none w = a
        go (some src) w =
            add_edge-AreFlows nodes
              (record { from_id = src; to_id = phi.id; slot = slot; kind = phi_loop }) s
              (record { written = w; used = ground arith; forward = λ h. cc }) a

    close_loops-AreFlows :
        (ns : List DagNode) (s : Edges)
        → All (IsListed nodes) ns
        → AreFlows nodes s
        → Ensures (AreFlows nodes) (close_loops nodes ns s)
    unfolding close_loops
    close_loops-AreFlows [] s l a = a
    close_loops-AreFlows (n ∷ ns) s l a =
        Ensures-bind (AreFlows nodes) (AreFlows nodes)
          (if is_loop_entry n.event.note then back_edges nodes n n.event.writes s else some s) _
          (Ensures-if (AreFlows nodes) (is_loop_entry n.event.note) _ _
            (back_edges-AreFlows n n.event.writes s l.0.writes_used a) a)
          λ closed b. close_loops-AreFlows ns closed l.1 b

-- What holds of the graph.
abbrev IsFlowing : Dag → Type 0
IsFlowing d = All (IsFlow d.nodes) d.edges × Distinct (map key d.edges)

build_dag-in :
    (segments : List Segment) (matrix : Matrix) → Ensures IsFlowing (build_dag segments matrix)
unfolding build_dag
build_dag-in segments matrix =
    let nodes = dag_nodes segments matrix in
    let listed : All (IsListed nodes) nodes = All-IsListed nodes [] nodes refl in
    Ensures-bind (λ (t : Scan). AreFlows nodes t.edges) IsFlowing (scan nodes no_edges) _
      (scan-AreFlows nodes 0 _ no_edges listed (record {
        flows = record { flows = tt; keys_seen = refl; distinct = tt };
        writers = tt;
        scope_writers = tt;
      }))
      λ scanned a.
        Ensures-bind (AreFlows nodes) IsFlowing (close_loops nodes nodes scanned.edges) _
          (close_loops-AreFlows nodes listed nodes scanned.edges listed a)
          λ closed b. (b.flows, subst Distinct b.keys_seen b.distinct)

-- In the data-flow graph of any matrix every edge goes from a node that writes its slot to a node that
-- reads or writes it, and forward unless it is an edge to a loop's phi row; and no two edges have the
-- same ends and slot.
pub build_dag-IsFlow :
    (segments : List Segment) (matrix : Matrix) (d : Dag)
    → build_dag segments matrix ≡ some d
    → All (IsFlow d.nodes) d.edges × Distinct (map key d.edges)
build_dag-IsFlow segments matrix d h = subst (Ensures IsFlowing) h (build_dag-in segments matrix)
