-- ===== src/Cdup/Dag/Total.antt =====
-- The data-flow graph exists for every matrix that `build_matrix` gives.
use csc512_distributed_syste.Prelude.{
  ℕ, zero, suc, ◌≡◌, refl, ◌∙◌, Bool, true, false, ◌&&◌, Option, none, some, List, [], ◌∷◌, map,
  all, All, member, if◌then◌else◌, leb, arith, inl, inr,
}
use csc512_distributed_syste.Prelude.Sort.{all-sorted}
use csc512_distributed_syste.Prelude.Dict.{Dict}
use csc512_distributed_syste.Prelude.Text.{Text, starts_with, text_eq}
use csc512_distributed_syste.Cdup.Ir.{Segment}
use csc512_distributed_syste.Cdup.Rows.{Lexer, Row, Note, no_note, branch_reconvergence, loop_entry}
use csc512_distributed_syste.Cdup.Rows.Columns.{is_attached}
use csc512_distributed_syste.Cdup.Matrix.{Matrix, build_matrix}
use csc512_distributed_syste.Cdup.Matrix.Phis.{IsSound}
use csc512_distributed_syste.Cdup.Matrix.Sound.{build_matrix-IsSound}
use csc512_distributed_syste.Cdup.Matrix.Walks.{
  returns, returns-bind, returns-if, result-of_returns,
}
use csc512_distributed_syste.Cdup.Matrix.Total.{IsOrdered, build_matrix-returns}
use csc512_distributed_syste.Cdup.Nodes.{
  Event, DagNode, row_note, synthetic, row_event, make_entry_node, insertions, insert_at,
  insert_all, with_entries, assign_ids,
}
use csc512_distributed_syste.Cdup.Dag.{
  Edges, Scan, node_edges, scan, last_in_loop, back_edges, is_loop_entry, close_loops, Dag,
  dag_nodes, no_edges, build_dag,
}

-- The same of an event.
abbrev is_attached_event : Event → Bool
is_attached_event v = elim v.note [
  | row_note no_note ↦ true
  | row_note branch_reconvergence ↦ elim v.writes [ [] ↦ false | slot ∷ slots ↦ true ]
  | row_note loop_entry ↦ elim v.scope_path [ none ↦ false | some scope ↦ true ]
  | synthetic ↦ true
]

row_event-attached : (r : Row) → is_attached r ≡ true → is_attached_event (row_event r) ≡ true
unfolding row_event
row_event-attached r h = go r.note r.writes r.scope_path h
  where
    go :
        (n : Note) (ws : List Text) (sc : Option Text)
        → elim n [
          | no_note ↦ true
          | branch_reconvergence ↦ elim ws [ [] ↦ false | slot ∷ slots ↦ true ]
          | loop_entry ↦ elim sc [ none ↦ false | some scope ↦ true ]
        ]
          ≡ true
        → elim (row_note n) [
          | row_note no_note ↦ true
          | row_note branch_reconvergence ↦ elim ws [ [] ↦ false | slot ∷ slots ↦ true ]
          | row_note loop_entry ↦ elim sc [ none ↦ false | some scope ↦ true ]
          | synthetic ↦ true
        ]
          ≡ true
    go no_note ws sc h = h
    go branch_reconvergence ws sc h = h
    go loop_entry ws sc h = h

all-insert_at :
    (p : Event → Bool) (i : ℕ) (v : Event) (vs : List Event)
    → all p (insert_at i v vs) ≡ p v && all p vs
unfolding insert_at all
all-insert_at p zero v vs = refl
all-insert_at p (suc i) v [] = refl
all-insert_at p (suc i) v (w ∷ vs) = ground (arith, all-insert_at p i v vs)

all-insert_all :
    (p : Event → Bool) (ps : List (ℕ × Event)) (vs : List Event)
    → all p (insert_all ps vs) ≡ all (λ e. p e.1) ps && all p vs
unfolding insert_all all
all-insert_all p [] vs = refl
all-insert_all p (e ∷ ps) vs =
    all-insert_all p ps (insert_at e.0 e.1 vs) ∙ ground (arith, all-insert_at p e.0 e.1 vs)

insertions-attached :
    (first : Dict ℕ ℕ) (size : ℕ) (segments : List Segment)
    → all (λ e. is_attached_event e.1) (insertions first size segments) ≡ true
unfolding insertions all make_entry_node
insertions-attached first size [] = refl
insertions-attached first size (s ∷ ss) = ground (arith, insertions-attached first size ss)

with_entries-attached :
    (segments : List Segment) (vs : List Event)
    → all is_attached_event vs ≡ true
    → all is_attached_event (with_entries segments vs) ≡ true
unfolding with_entries
with_entries-attached segments vs h =
    rw
      (
        all-insert_all is_attached_event _ vs,
        all-sorted (λ (e : ℕ × Event). is_attached_event e.1) _ _,
        insertions-attached _ _ segments,
        h,
      )
      refl

all-assign_ids :
    (p : Event → Bool) (i : ℕ) (vs : List Event) → all (λ n. p n.event) (assign_ids i vs) ≡ all p vs
unfolding assign_ids all
all-assign_ids p i [] = refl
all-assign_ids p i (v ∷ vs) = rw (all-assign_ids p (suc i) vs) refl

node_edges-returns :
    (n : DagNode) (s : Scan) → is_attached_event n.event ≡ true → returns (node_edges n s) ≡ true
unfolding node_edges
node_edges-returns n s h = ground arith

scan-returns :
    (ns : List DagNode) (s : Scan)
    → all (λ n. is_attached_event n.event) ns ≡ true
    → returns (scan ns s) ≡ true
unfolding scan all
scan-returns [] s h = refl
scan-returns (n ∷ ns) s h =
    returns-bind (node_edges n s) _ (node_edges-returns n s (ground arith))
      λ edges p. scan-returns ns _ (ground arith)

-- One node of the search, where the phi row has a scope.
search-returns :
    (scope phi_scope : Option Text) (slot : Text) (n : DagNode) (x y : Option (Option ℕ))
    → returns phi_scope ≡ true
    → returns x ≡ true
    → returns y ≡ true
    → returns (elim scope [
      | none ↦ y
      | some sc ↦ elim phi_scope [
        | none ↦ none
        | some ps ↦ if starts_with sc ps && member slot n.event.writes then x else y
      ]
    ])
      ≡ true
search-returns none phi_scope slot n x y h f g = g
search-returns (some sc) none slot n x y h f g = cc
search-returns (some sc) (some ps) slot n x y h f g =
    returns-if (starts_with sc ps && member slot n.event.writes) x y f g

last_in_loop-returns :
    (phi : DagNode) (slot : Text) (ns : List DagNode) (last : Option ℕ)
    → returns phi.event.scope_path ≡ true
    → returns (last_in_loop phi slot ns last) ≡ true
unfolding last_in_loop
last_in_loop-returns phi slot [] last h = refl
last_in_loop-returns phi slot (n ∷ ns) last h =
    returns-if (leb n.id phi.id) _ _ (last_in_loop-returns phi slot ns last h) (
      search-returns n.event.scope_path phi.event.scope_path slot n
        (last_in_loop phi slot ns (some n.id)) (last_in_loop phi slot ns last) h
        (last_in_loop-returns phi slot ns (some n.id) h) (last_in_loop-returns phi slot ns last h))

back_edges-returns :
    (nodes : List DagNode) (phi : DagNode) (slots : List Text) (s : Edges)
    → returns phi.event.scope_path ≡ true
    → returns (back_edges nodes phi slots s) ≡ true
unfolding back_edges
back_edges-returns nodes phi [] s h = refl
back_edges-returns nodes phi (slot ∷ slots) s h =
    returns-bind (last_in_loop phi slot nodes none) _ (last_in_loop-returns phi slot nodes none h)
      λ last p. back_edges-returns nodes phi slots _ h

closed-returns :
    (nodes : List DagNode) (n : DagNode) (s : Edges)
    → is_attached_event n.event ≡ true
    → returns (if is_loop_entry n.event.note then back_edges nodes n n.event.writes s else some s)
      ≡ true
closed-returns nodes n s h = ground (arith, back_edges-returns nodes n n.event.writes s)

close_loops-returns :
    (nodes ns : List DagNode) (s : Edges)
    → all (λ n. is_attached_event n.event) ns ≡ true
    → returns (close_loops nodes ns s) ≡ true
unfolding close_loops all
close_loops-returns nodes [] s h = refl
close_loops-returns nodes (n ∷ ns) s h =
    returns-bind
      (if is_loop_entry n.event.note then back_edges nodes n n.event.writes s else some s) _
      (closed-returns nodes n s (ground arith))
      λ closed p. close_loops-returns nodes ns closed (ground arith)

rows-attached :
    (slots : List Text) (rows : List Row)
    → All (IsSound slots) rows
    → all is_attached_event (map row_event rows) ≡ true
unfolding all
rows-attached slots [] h = refl
rows-attached slots (r ∷ rs) h =
    let attached : is_attached r ≡ true = elim h.0 [ inl i ↦ i.attached | inr j ↦ j.attached ] in
    ground (arith, row_event-attached r attached, rows-attached slots rs h.1)

build_dag-returns_attached :
    (segments : List Segment) (m : Matrix)
    → all is_attached_event (map row_event m.rows) ≡ true
    → returns (build_dag segments m) ≡ true
unfolding build_dag
build_dag-returns_attached segments m h =
    let nodes = dag_nodes segments m in
    let attached : all (λ (n : DagNode). is_attached_event n.event) nodes ≡ true =
      all-assign_ids is_attached_event 0 (with_entries segments (map row_event m.rows))
      ∙ with_entries-attached segments (map row_event m.rows) h in
    returns-bind (scan nodes no_edges) _ (scan-returns nodes no_edges attached) λ scanned p.
      returns-bind (close_loops nodes nodes scanned.edges) _
        (close_loops-returns nodes nodes scanned.edges attached) λ closed q. refl

-- If every segment is numbered after its parent or is its own parent, and the fuel is greater than
-- every number, then there is a matrix, and a data-flow graph of it.
pub build_dag-returns :
    (lexer : Lexer) (fuel : ℕ) (segments : List Segment)
    → IsOrdered fuel segments
    → (m : Matrix) × ((d : Dag) × ((build_matrix lexer fuel segments ≡ some m)
          × (build_dag segments m ≡ some d)))
build_dag-returns lexer fuel segments o =
    let (m, h) = build_matrix-returns lexer fuel segments o in
    let sound = (build_matrix-IsSound lexer fuel segments m h).1 in
    let (d, k) =
      result-of_returns (build_dag segments m)
        (build_dag-returns_attached segments m (rows-attached m.slots m.rows sound)) in
    (m, (d, (h, k)))
