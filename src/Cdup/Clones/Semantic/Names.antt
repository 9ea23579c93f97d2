-- ===== src/Cdup/Clones/Semantic/Names.antt =====
-- The signature of Type IV of cdup/src/detect.py depends on no names, texts or types of variables.
use csc512_distributed_syste.Prelude.{
  ℕ, zero, suc, ◌≡◌, refl, ap, ◌∙◌, Bool, true, false, not, Option, none, some, List, [], ◌∷◌, ◌++◌,
  map, select, ◌==◌, nat_eq, if◌then◌else◌, Bool-cases, inl, inr,
}
use csc512_distributed_syste.Prelude.Dict.{Dict, get, get_or, put}
use csc512_distributed_syste.Prelude.Text.{Text}
use csc512_distributed_syste.Cdup.Ir.{Statement, Segment, SegmentType}
use csc512_distributed_syste.Cdup.Matrix.{seg_by_id, index_loop, children_loop, sort_values}
use csc512_distributed_syste.Cdup.Clones.Semantic.{
  Shapes, has_block, abstract_kind, kind_text, count_rw, with_type, child_types, clone_children,
  shape_at, shapes_of, of_child, structural_fingerprint, semantic_signature,
}

module _ (f : Statement → Statement) (same_kind : (s : Statement) → (f s).kind ≡ s.kind)
    (same_block : (s : Statement) → has_block (f s).raw ≡ has_block s.raw)
    (same_counts : (s : Statement) → count_rw (f s) ≡ count_rw s) where
  -- A segment with each statement rewritten.
  unfoldable pub rewritten : Segment → Segment
  rewritten seg = record seg { stmts = map f seg.stmts }

  abbrev pub rewritten_entry : ℕ × Segment → ℕ × Segment
  rewritten_entry e = (e.0, rewritten e.1)

  put-rewritten :
      (k : ℕ) (s : Segment) (d : Dict ℕ Segment)
      → put k (rewritten s) (map rewritten_entry d) ≡ map rewritten_entry (put k s d)
  unfolding put
  put-rewritten k s [] = refl
  put-rewritten k s ((j, t) ∷ d) = elim (Bool-cases (j == k)) [
    | inl e ↦ rw e refl
    | inr e ↦ rw e (ap (λ l. (j, rewritten t) ∷ l) (put-rewritten k s d))
  ]

  index_loop-rewritten :
      (d : Dict ℕ Segment) (segs : List Segment)
      → index_loop (map rewritten_entry d) (map rewritten segs)
        ≡ map rewritten_entry (index_loop d segs)
  unfolding index_loop rewritten
  index_loop-rewritten d [] = refl
  index_loop-rewritten d (s ∷ ss) =
      ap (λ e. index_loop e (map rewritten ss)) (put-rewritten s.id s d)
      ∙ index_loop-rewritten (put s.id s d) ss

  abbrev optional : Option Segment → Option Segment
  optional none = none
  optional (some s) = some (rewritten s)

  get-rewritten : (k : ℕ) (d : Dict ℕ Segment) → get k (map rewritten_entry d) ≡ optional (get k d)
  unfolding get
  get-rewritten k [] = refl
  get-rewritten k ((j, t) ∷ d) = elim (Bool-cases (j == k)) [
    | inl e ↦ rw e refl
    | inr e ↦ rw e (get-rewritten k d)
  ]

  get-seg_by_id :
      (k : ℕ) (segs : List Segment)
      → get k (seg_by_id (map rewritten segs)) ≡ optional (get k (seg_by_id segs))
  unfolding seg_by_id
  get-seg_by_id k segs =
      ap (λ d. get k d) (index_loop-rewritten [] segs) ∙ get-rewritten k (index_loop [] segs)

  select-rewritten :
      (segs : List Segment)
      → select (λ s. not (s.id == 0)) (map rewritten segs)
        ≡ map rewritten (select (λ s. not (s.id == 0)) segs)
  unfolding select rewritten
  select-rewritten [] = refl
  select-rewritten (s ∷ ss) = elim (Bool-cases (not (s.id == 0))) [
    | inl e ↦ rw e (ap (λ l. rewritten s ∷ l) (select-rewritten ss))
    | inr e ↦ rw e (select-rewritten ss)
  ]

  children_loop-rewritten :
      (d : Dict ℕ (List ℕ)) (segs : List Segment)
      → children_loop d (map rewritten segs) ≡ children_loop d segs
  unfolding children_loop rewritten
  children_loop-rewritten d [] = refl
  children_loop-rewritten d (s ∷ ss) =
      children_loop-rewritten
        (if s.id == s.parent then d else put s.parent (get_or s.parent [] d ++ s.id ∷ []) d) ss

  clone_children-rewritten :
      (segs : List Segment) → clone_children (map rewritten segs) ≡ clone_children segs
  unfolding clone_children
  clone_children-rewritten segs =
      ap (λ l. sort_values (children_loop [] l)) (select-rewritten segs)
      ∙ ap sort_values (children_loop-rewritten [] (select (λ s. not (s.id == 0)) segs))

  shape_at-same :
      (category : Text) (b : Bool) (ids : List ℕ) (child other : ℕ → Option Shapes)
      (later after : List ℕ → Option Shapes)
      → ((id : ℕ) → child id ≡ other id)
      → ((js : List ℕ) → later js ≡ after js)
      → shape_at category b ids child later ≡ shape_at category b ids other after
  unfolding shape_at
  shape_at-same category true (id ∷ ids) child other later after h k = rw (h id, k ids) refl
  shape_at-same category true [] child other later after h k = rw (k []) refl
  shape_at-same category false ids child other later after h k = rw (k ids) refl

  shapes_of-rewritten :
      (child other : ℕ → Option Shapes) (ids : List ℕ) (ss : List Statement)
      → ((id : ℕ) → child id ≡ other id)
      → shapes_of child ids (map f ss) ≡ shapes_of other ids ss
  unfolding shapes_of
  shapes_of-rewritten child other ids [] h = refl
  shapes_of-rewritten child other ids (s ∷ ss) h =
      ap
        (λ k.
          shape_at (abstract_kind (kind_text k)) (has_block (f s).raw) ids child
            (λ js. shapes_of child js (map f ss)))
        (same_kind s)
      ∙ ap
          (λ b.
            shape_at (abstract_kind (kind_text s.kind)) b ids child
              (λ js. shapes_of child js (map f ss)))
          (same_block s)
      ∙ shape_at-same (abstract_kind (kind_text s.kind)) (has_block s.raw) ids child other
          (λ js. shapes_of child js (map f ss)) (λ js. shapes_of other js ss) h
          (λ js. shapes_of-rewritten child other js ss h)

  of_child-rewritten :
      (print before : Segment → Option Shapes) (o : Option Segment)
      → ((s : Segment) → print (rewritten s) ≡ before s)
      → of_child print (optional o) ≡ of_child before o
  of_child-rewritten print before none h = refl
  of_child-rewritten print before (some s) h = h s

  structural_fingerprint-rewritten :
      (segs : List Segment) (fuel : ℕ) (s : Segment)
      → structural_fingerprint (map rewritten segs) fuel (rewritten s)
        ≡ structural_fingerprint segs fuel s
  unfolding structural_fingerprint rewritten
  structural_fingerprint-rewritten segs zero s = refl
  structural_fingerprint-rewritten segs (suc fuel) s =
      let print : Segment → Option Shapes =
        λ c. structural_fingerprint (map rewritten segs) fuel c in
      let before : Segment → Option Shapes = λ c. structural_fingerprint segs fuel c in
      ap
        (λ d.
          shapes_of (λ id. of_child print (get id (seg_by_id (map rewritten segs))))
            (get_or s.id [] d) (map f s.stmts))
        (clone_children-rewritten segs)
      ∙ shapes_of-rewritten (λ id. of_child print (get id (seg_by_id (map rewritten segs))))
          (λ id. of_child before (get id (seg_by_id segs))) (get_or s.id [] (clone_children segs))
          s.stmts
          (λ id.
            ap (λ o. of_child print o) (get-seg_by_id id segs)
            ∙ of_child-rewritten print before (get id (seg_by_id segs))
                (λ c. structural_fingerprint-rewritten segs fuel c))

  counts-rewritten : (ss : List Statement) → map count_rw (map f ss) ≡ map count_rw ss
  counts-rewritten [] = refl
  counts-rewritten (s ∷ ss) =
      ap (λ c. c ∷ map count_rw (map f ss)) (same_counts s)
      ∙ ap (λ l. count_rw s ∷ l) (counts-rewritten ss)

  with_type-rewritten :
      (o : Option Segment) (types : List SegmentType)
      → with_type (optional o) types ≡ with_type o types
  unfolding rewritten
  with_type-rewritten none types = refl
  with_type-rewritten (some s) types = refl

  child_types-rewritten :
      (d e : Dict ℕ Segment) (ids : List ℕ)
      → ((k : ℕ) → get k d ≡ optional (get k e))
      → child_types d ids ≡ child_types e ids
  unfolding child_types rewritten
  child_types-rewritten d e [] h = refl
  child_types-rewritten d e (id ∷ ids) h =
      ap (λ o. with_type o (child_types d ids)) (h id)
      ∙ with_type-rewritten (get id e) (child_types d ids)
      ∙ ap (λ l. with_type (get id e) l) (child_types-rewritten d e ids h)

  -- If each statement of the program is replaced by one of the same kind, with a block or not as before,
  -- and with as many names read and written, no segment's signature changes.
  pub semantic_signature-rewritten :
      (segs : List Segment) (fuel : ℕ) (s : Segment)
      → semantic_signature (map rewritten segs) fuel (rewritten s) ≡ semantic_signature segs fuel s
  unfolding semantic_signature rewritten
  semantic_signature-rewritten segs fuel s =
      let types =
        ap (λ d. child_types (seg_by_id (map rewritten segs)) (get_or s.id [] d))
          (clone_children-rewritten segs)
        ∙ child_types-rewritten (seg_by_id (map rewritten segs)) (seg_by_id segs)
            (get_or s.id [] (clone_children segs)) (λ k. get-seg_by_id k segs) in
      λ i. (structural_fingerprint-rewritten segs fuel s i, (counts-rewritten s.stmts i, types i))
