-- ===== src/Cdup/Dag/Scanned.antt =====
-- The scan over the nodes adds flows only.
use csc512_distributed_syste.Prelude.{
  all-of_member, ℕ, suc, ◌≡◌, sym, ◌∙◌, true, ◌&&◌, ◌||◌, none, some, List, [], ◌∷◌, ◌++◌,
  append_assoc, member, any, any-append, all, All, All-weaken, ◌==◌, nat_eq, pair_eq, arith,
  eq_self,
}
use csc512_distributed_syste.Prelude.Text.{Text, text_eq}
use csc512_distributed_syste.Cdup.Rows.{no_note, branch_reconvergence, loop_entry}
use csc512_distributed_syste.Cdup.Matrix.Phis.{Ensures, Ensures-bind}
use csc512_distributed_syste.Cdup.Nodes.{Event, DagNode, NodeNote, row_note, synthetic, assign_ids}
use csc512_distributed_syste.Cdup.Dag.{
  phi_loop, data_flow, Scan, join_edges, read_edges, node_edges, scan,
}
use csc512_distributed_syste.Cdup.Dag.Sources.{
  writes_at, uses_at, AreFlows, AreWriters, AreScopeWriters, record_writes-AreWriters,
  record_scope_writes-AreScopeWriters, read_edges-AreFlows, join_edges-AreFlows,
}

module _ (nodes : List DagNode) where
  -- A node's own slots are written and used at its id.
  pub record IsListed (n : DagNode) : Type 0 where
    pub writes_listed : all (writes_at nodes n.id) n.event.writes ≡ true
    pub reads_used : all (uses_at nodes n.id) n.event.reads ≡ true
    pub writes_used : all (uses_at nodes n.id) n.event.writes ≡ true

  IsListed-split :
      (before : List DagNode) (n : DagNode) (after : List DagNode)
      → nodes ≡ before ++ n ∷ after
      → IsListed n
  unfolding writes_at uses_at any
  IsListed-split before n after h = record {
    writes_listed = all-of_member _ n.event.writes λ slot m.
        rw (h, any-append (λ k. k.id == n.id && member slot k.event.writes) before (n ∷ after))
          (ground (arith, m, eq_self n.id));
    reads_used = all-of_member _ n.event.reads λ slot m.
        rw
          (
            h,
            any-append
                (λ k. k.id == n.id && (member slot k.event.reads || member slot k.event.writes))
                before (n ∷ after),
          )
          (ground (arith, m, eq_self n.id));
    writes_used = all-of_member _ n.event.writes λ slot m.
        rw
          (
            h,
            any-append
                (λ k. k.id == n.id && (member slot k.event.reads || member slot k.event.writes))
                before (n ∷ after),
          )
          (ground (arith, m, eq_self n.id));
  }

  pub All-IsListed : (before after : List DagNode) → nodes ≡ before ++ after → All IsListed after
  All-IsListed before [] h = tt
  All-IsListed before (n ∷ after) h = (
    IsListed-split before n after h,
    All-IsListed (before ++ n ∷ []) after (h ∙ sym (append_assoc before (n ∷ []) after)),
  )

  -- The scan before the node `next`.
  pub record IsScan (next : ℕ) (s : Scan) : Type 0 where
    pub flows : AreFlows nodes s.edges
    pub writers : AreWriters nodes next s.last_write
    pub scope_writers : AreScopeWriters nodes next s.scope_last_write

  node_edges-AreFlows :
      (n : DagNode) (s : Scan)
      → IsListed n
      → IsScan n.id s
      → Ensures (AreFlows nodes) (node_edges n s)
  unfolding node_edges all
  node_edges-AreFlows n s l i = go n.event.note n.event.writes l.writes_used
    where
      go :
          (note : NodeNote) (ws : List Text)
          → all (uses_at nodes n.id) ws ≡ true
          → Ensures (AreFlows nodes) (elim note [
            | row_note branch_reconvergence ↦ elim ws [
              | [] ↦ none
              | slot ∷ slots ↦ some (join_edges s.scope_last_write n.id slot n.event.reads s.edges)
            ]
            | row_note no_note ↦ some (read_edges s.last_write n.id data_flow n.event.reads s.edges)
            | row_note loop_entry ↦
                some (read_edges s.last_write n.id phi_loop n.event.reads s.edges)
            | synthetic ↦ some (read_edges s.last_write n.id data_flow n.event.reads s.edges)
          ])
      go (row_note branch_reconvergence) [] h = tt
      go (row_note branch_reconvergence) (slot ∷ slots) h =
          join_edges-AreFlows nodes s.scope_last_write n.id slot n.event.reads s.edges
            i.scope_writers (ground arith) i.flows
      go (row_note no_note) ws h =
          read_edges-AreFlows nodes s.last_write n.id data_flow n.event.reads s.edges i.writers
            l.reads_used i.flows
      go (row_note loop_entry) ws h =
          read_edges-AreFlows nodes s.last_write n.id phi_loop n.event.reads s.edges i.writers
            l.reads_used i.flows
      go synthetic ws h =
          read_edges-AreFlows nodes s.last_write n.id data_flow n.event.reads s.edges i.writers
            l.reads_used i.flows

  pub scan-AreFlows :
      (next : ℕ) (vs : List Event) (s : Scan)
      → All IsListed (assign_ids next vs)
      → IsScan next s
      → Ensures (λ (t : Scan). AreFlows nodes t.edges) (scan (assign_ids next vs) s)
  unfolding scan assign_ids
  scan-AreFlows next [] s l i = i.flows
  scan-AreFlows next (v ∷ vs) s l i =
      let n : DagNode = record { id = next; event = v } in
      Ensures-bind (AreFlows nodes) (λ (t : Scan). AreFlows nodes t.edges) (node_edges n s) _
        (node_edges-AreFlows n s l.0 i)
        λ edges a. scan-AreFlows (suc next) vs _ l.1 (record {
          flows = a;
          writers =
              record_writes-AreWriters nodes (suc next) next v.writes s.last_write (omega arith)
                l.0.writes_listed
                (All-weaken _ _ s.last_write (λ e h. (h.0, omega (arith, h.1))) i.writers);
          scope_writers =
              record_scope_writes-AreScopeWriters nodes (suc next) next v.scope_path v.writes
                s.scope_last_write (omega arith) l.0.writes_listed
                (All-weaken _ _ s.scope_last_write (λ e h. (h.0, omega (arith, h.1)))
                  i.scope_writers);
        })
