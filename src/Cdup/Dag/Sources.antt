-- ===== src/Cdup/Dag/Sources.antt =====
-- What the edges of the data-flow graph say.
use csc512_distributed_syste.Prelude.{
  ℕ, ◌<◌, ◌≡◌, refl, ap, sym, ◌∙◌, Bool, true, false, ◌&&◌, ◌||◌, Option, none, some, List, [], ◌∷◌,
  ◌++◌, map, map-append, member, any, all, All, All-append, Distinct, Distinct-snoc, ◌==◌, nat_eq,
  pair_eq, arith, Bool-cases, inl, inr,
}
use csc512_distributed_syste.Prelude.Dict.{Dict, get, put, get-All, put-All}
use csc512_distributed_syste.Prelude.Text.{Text, text_eq}
use csc512_distributed_syste.Cdup.Nodes.{DagNode}
use csc512_distributed_syste.Cdup.Dag.{
  Edge, EdgeKind, phi_loop, phi_branch, key, Edges, add_edge, join_edges, read_edges, record_writes,
  record_scope_writes,
}

-- Some node of this id writes the slot; reads or writes it.
unfoldable pub writes_at : List DagNode → ℕ → Text → Bool
writes_at nodes id slot = any (λ n. n.id == id && member slot n.event.writes) nodes

unfoldable pub uses_at : List DagNode → ℕ → Text → Bool
uses_at nodes id slot =
    any (λ n. n.id == id && (member slot n.event.reads || member slot n.event.writes)) nodes

abbrev is_phi_loop : EdgeKind → Bool
is_phi_loop phi_loop = true
is_phi_loop _ = false

-- An edge goes from a node that writes its slot to a node that reads or writes it, and forward unless
-- it is an edge to a loop's phi row.
pub record IsFlow (nodes : List DagNode) (e : Edge) : Type 0 where
  pub written : writes_at nodes e.from_id e.slot ≡ true
  pub used : uses_at nodes e.to_id e.slot ≡ true
  pub forward : is_phi_loop e.kind ≡ false → e.from_id < e.to_id

module _ (nodes : List DagNode) where
  -- The edges so far: each is a flow, and the set of the keys seen is theirs, without repetition.
  pub record AreFlows (s : Edges) : Type 0 where
    pub flows : All (IsFlow nodes) s.edges
    pub keys_seen : s.seen ≡ map key s.edges
    pub distinct : Distinct s.seen

  pub add_edge-AreFlows :
      (e : Edge) (s : Edges) → IsFlow nodes e → AreFlows s → AreFlows (add_edge e s)
  unfolding add_edge
  add_edge-AreFlows e s f a = elim (Bool-cases (member (key e) s.seen)) [
    | inl h ↦ rw h a
    | inr h ↦ rw h (record {
      flows = All-append (IsFlow nodes) s.edges (e ∷ []) a.flows (f, tt);
      keys_seen = ap (λ ks. ks ++ key e ∷ []) a.keys_seen ∙ sym (map-append key s.edges (e ∷ []));
      distinct = Distinct-snoc (key e) s.seen h a.distinct;
    })
  ]

  -- What the dictionaries of the scan know before a node: earlier writers.
  abbrev pub IsWriter : ℕ → Text → ℕ → Type 0
  IsWriter next slot id = (writes_at nodes id slot ≡ true) × (id < next)

  abbrev pub AreWriters : ℕ → Dict Text ℕ → Type 0
  AreWriters next = All (λ e. IsWriter next e.0 e.1)

  abbrev pub AreScopeWriters : ℕ → Dict (Text × Text) ℕ → Type 0
  AreScopeWriters next = All (λ e. IsWriter next e.0.1 e.1)

  pub record_writes-AreWriters :
      (next nid : ℕ) (slots : List Text) (d : Dict Text ℕ)
      → nid < next
      → all (writes_at nodes nid) slots ≡ true
      → AreWriters next d
      → AreWriters next (record_writes nid slots d)
  unfolding record_writes all
  record_writes-AreWriters next nid [] d l w h = h
  record_writes-AreWriters next nid (slot ∷ slots) d l w h =
      record_writes-AreWriters next nid slots (put slot nid d) l (ground arith)
        (put-All (IsWriter next) slot nid d (ground arith, l) h)

  pub record_scope_writes-AreScopeWriters :
      (next nid : ℕ) (scope : Option Text) (slots : List Text) (d : Dict (Text × Text) ℕ)
      → nid < next
      → all (writes_at nodes nid) slots ≡ true
      → AreScopeWriters next d
      → AreScopeWriters next (record_scope_writes nid scope slots d)
  unfolding record_scope_writes all
  record_scope_writes-AreScopeWriters next nid none slots d l w h = h
  record_scope_writes-AreScopeWriters next nid (some scope) [] d l w h = h
  record_scope_writes-AreScopeWriters next nid (some scope) (slot ∷ slots) d l w h =
      record_scope_writes-AreScopeWriters next nid (some scope) slots (put (scope, slot) nid d) l
        (ground arith)
        (put-All (λ k v. IsWriter next k.1 v) (scope, slot) nid d (ground arith, l) h)

  pub read_edges-AreFlows :
      (written : Dict Text ℕ) (nid : ℕ) (k : EdgeKind) (slots : List Text) (s : Edges)
      → AreWriters nid written
      → all (uses_at nodes nid) slots ≡ true
      → AreFlows s
      → AreFlows (read_edges written nid k slots s)
  unfolding read_edges all
  read_edges-AreFlows written nid k [] s w u a = a
  read_edges-AreFlows written nid k (slot ∷ slots) s w u a =
      read_edges-AreFlows written nid k slots _ w (ground arith) (go (get slot written) refl)
    where
      go :
          (o : Option ℕ)
          → get slot written ≡ o
          → AreFlows (elim o [
            | none ↦ s
            | some src ↦ add_edge (record { from_id = src; to_id = nid; slot = slot; kind = k }) s
          ])
      go none p = a
      go (some src) p =
          let found : IsWriter nid slot src = get-All (IsWriter nid) slot src written w p in
          add_edge-AreFlows (record { from_id = src; to_id = nid; slot = slot; kind = k }) s
            (record { written = found.0; used = ground arith; forward = λ h. found.1 }) a

  pub join_edges-AreFlows :
      (written : Dict (Text × Text) ℕ) (nid : ℕ) (slot : Text) (scopes : List Text) (s : Edges)
      → AreScopeWriters nid written
      → uses_at nodes nid slot ≡ true
      → AreFlows s
      → AreFlows (join_edges written nid slot scopes s)
  unfolding join_edges
  join_edges-AreFlows written nid slot [] s w u a = a
  join_edges-AreFlows written nid slot (scope ∷ scopes) s w u a =
      join_edges-AreFlows written nid slot scopes _ w u (go (get (scope, slot) written) refl)
    where
      go :
          (o : Option ℕ)
          → get (scope, slot) written ≡ o
          → AreFlows (elim o [
            | none ↦ s
            | some src ↦
                add_edge (record { from_id = src; to_id = nid; slot = slot; kind = phi_branch }) s
          ])
      go none p = a
      go (some src) p =
          let found : IsWriter nid slot src =
            get-All (λ k v. IsWriter nid k.1 v) (scope, slot) src written w p in
          add_edge-AreFlows (record { from_id = src; to_id = nid; slot = slot; kind = phi_branch })
            s (record { written = found.0; used = u; forward = λ h. found.1 }) a
