-- ===== src/Cdup/Clones/Semantic.antt =====
-- The detection of Type IV clones of cdup/src/detect.py, on statements that the parser has classified.
-- The hash of the printed signature is a parameter.
pub mod Groups
pub mod Names
use csc512_distributed_syste.Prelude.{
  ℕ, zero, suc, ◌+◌, ◌-◌, Bool, true, false, ◌&&◌, ◌||◌, not, Option, none, some, List, [], ◌∷◌,
  ◌++◌, any, map, select, length, leb, ◌==◌, nat_eq, if◌then◌else◌,
}
use csc512_distributed_syste.Prelude.Dict.{Dict, get, get_or, put, values}
use csc512_distributed_syste.Prelude.Sort.{sorted}
use csc512_distributed_syste.Prelude.Text.{Text, codes, text_eq, starts_with, strip, lower}
use csc512_distributed_syste.Cdup.Ir.{
  Kind, decl, assign, branch, loop_head, control, call, func_decl, expr, phi, Statement, Segment,
  SegmentType, function,
}
use csc512_distributed_syste.Cdup.Matrix.{seg_by_id, children_loop, sort_values}

-- `_KIND_MAP`
unfoldable pub kind_map : Dict Text Text
kind_map =
    (codes "assign", codes "A")
    ∷ (codes "decl_assign", codes "A")
    ∷ (codes "compound_assign", codes "A")
    ∷ (codes "increment", codes "A")
    ∷ (codes "decrement", codes "A")
    ∷ (codes "decl", codes "D")
    ∷ (codes "return", codes "R")
    ∷ (codes "break", codes "B")
    ∷ (codes "continue", codes "C")
    ∷ (codes "call", codes "K")
    ∷ (codes "method_call", codes "K")
    ∷ (codes "printf", codes "IO")
    ∷ (codes "println", codes "IO")
    ∷ (codes "print", codes "IO")
    ∷ (codes "scanf", codes "IO")
    ∷ (codes "if", codes "IF")
    ∷ (codes "else", codes "ELSE")
    ∷ (codes "else_if", codes "ELIF")
    ∷ (codes "while", codes "W")
    ∷ (codes "for", codes "F")
    ∷ (codes "do_while", codes "DW")
    ∷ (codes "switch", codes "SW")
    ∷ (codes "case", codes "CASE")
    ∷ (codes "try", codes "TRY")
    ∷ (codes "catch", codes "CATCH")
    ∷ []

-- `_abstract_kind`
unfoldable pub abstract_kind : Text → Text
unfolding kind_map
abstract_kind kind = get_or kind (codes "X") kind_map

-- `_get_kind`
unfoldable pub kind_text : Kind → Text
kind_text decl = codes "decl"
kind_text assign = codes "assign"
kind_text branch = codes "branch"
kind_text loop_head = codes "loop_head"
kind_text control = codes "control"
kind_text call = codes "call"
kind_text func_decl = codes "func_decl"
kind_text expr = codes "expr"
kind_text phi = codes "phi"

-- `"{}" in raw`
unfoldable pub has_block : Text → Bool
has_block [] = false
has_block (c ∷ s) = starts_with (c ∷ s) (codes "{}") || has_block s

-- The structural fingerprint: the categories of the statements, with the fingerprint of its block.
mutual
  pub data Shape : Type 0 where
    plain : Text → Shape
    block : Text → Shapes → Shape

  pub data Shapes : Type 0 where
    end : Shapes
    next : Shape → Shapes → Shapes

infixl 5 ◌>>=◌
abbrev pub ◌>>=◌ : Option Shapes → (Shapes → Option Shapes) → Option Shapes
none >>= f = none
some a >>= f = f a

-- One turn of the loop of `_structural_fingerprint`: the category of the statement, whether it has a
-- block, the children that are left, the fingerprint of a child, and the rest of the loop.
unfoldable pub shape_at :
    Text → Bool → List ℕ → (ℕ → Option Shapes) → (List ℕ → Option Shapes) → Option Shapes
shape_at category true (id ∷ ids) child later =
    child id >>= λ shape. later ids >>= λ rest. some (next (block category shape) rest)
shape_at category true [] child later = later [] >>= λ rest. some (next (plain category) rest)
shape_at category false ids child later = later ids >>= λ rest. some (next (plain category) rest)

-- The loop over the statements.
unfoldable pub shapes_of : (ℕ → Option Shapes) → List ℕ → List Statement → Option Shapes
unfolding abstract_kind kind_text has_block shape_at
shapes_of child ids [] = some end
shapes_of child ids (s ∷ ss) =
    shape_at (abstract_kind (kind_text s.kind)) (has_block s.raw) ids child
      λ later. shapes_of child later ss

-- The children of each segment.
unfoldable pub clone_children : List Segment → Dict ℕ (List ℕ)
unfolding children_loop sort_values
clone_children segments = sort_values (children_loop [] (select (λ s. not (s.id == 0)) segments))

-- The fingerprint of a child, empty if there is no such segment.
abbrev pub of_child : (Segment → Option Shapes) → Option Segment → Option Shapes
of_child fingerprint none = some end
of_child fingerprint (some c) = fingerprint c

-- `_structural_fingerprint`; the fuel bounds the depth of the nesting.
unfoldable pub structural_fingerprint : List Segment → ℕ → Segment → Option Shapes
unfolding shapes_of clone_children seg_by_id
structural_fingerprint segments zero seg = none
structural_fingerprint segments (suc fuel) seg =
    shapes_of
      (λ id. of_child (λ c. structural_fingerprint segments fuel c) (get id (seg_by_id segments)))
      (get_or seg.id [] (clone_children segments)) seg.stmts

abbrev pub is_text : Option Text → Bool
is_text none = false
is_text (some []) = false
is_text (some (c ∷ s)) = true

-- `_count_rw`
unfoldable pub count_rw : Statement → ℕ × ℕ
count_rw s = (length s.r_names, if is_text s.l_name then 1 else 0)

abbrev pub with_type : Option Segment → List SegmentType → List SegmentType
with_type none types = types
with_type (some c) types = c.type ∷ types

unfoldable pub child_types : Dict ℕ Segment → List ℕ → List SegmentType
child_types segs [] = []
child_types segs (id ∷ ids) = with_type (get id segs) (child_types segs ids)

-- `_semantic_signature`
abbrev pub Signature : Type 0
Signature = Option Shapes × (List (ℕ × ℕ) × List SegmentType)

unfoldable pub semantic_signature : List Segment → ℕ → Segment → Signature
unfolding structural_fingerprint count_rw child_types seg_by_id clone_children
semantic_signature segments fuel seg = (
  structural_fingerprint segments fuel seg,
  (
    map count_rw seg.stmts,
    child_types (seg_by_id segments) (get_or seg.id [] (clone_children segments)),
  ),
)

abbrev pub is_function : SegmentType → Bool
is_function function = true
is_function _ = false

-- `fn_segments`
unfoldable pub fn_segments : ℕ → List Segment → List Segment
fn_segments min_length = select (λ s. is_function s.type && leb min_length (length s.stmts))

module _ (hash : Signature → Text) where
  -- The hash of a segment's signature, with fuel for as many levels as there are segments.
  unfoldable pub signature_hash : List Segment → Segment → Text
  unfolding semantic_signature
  signature_hash segments s = hash (semantic_signature segments (suc (length segments)) s)

  -- `sig_groups`
  unfoldable pub signature_groups :
      List Segment → Dict Text (List Segment) → List Segment → Dict Text (List Segment)
  unfolding signature_hash
  signature_groups segments groups [] = groups
  signature_groups segments groups (s ∷ ss) =
      let sig = signature_hash segments s in
      signature_groups segments (put sig (get_or sig [] groups ++ s ∷ []) groups) ss

  -- `detect_type4`: the classes, the largest first.
  unfoldable pub detect_type4 : ℕ → List Segment → List (List Segment)
  unfolding signature_groups fn_segments
  detect_type4 min_length segments =
      select (λ g. leb 2 (length g))
        (sorted (λ g h. leb (length h) (length g))
          (values (signature_groups segments [] (fn_segments min_length segments))))
