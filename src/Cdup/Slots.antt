-- ===== src/Cdup/Slots.antt =====
-- cdup/src/matrix.py: the resolution of names to scoped slots.
pub mod Innermost
use mathlib.Core.List.{reverse}
use csc512_distributed_syste.Prelude.{
  ℕ, zero, suc, Bool, true, false, ◌&&◌, ◌||◌, not, Option, none, some, List, [], ◌∷◌, ◌++◌, map,
  member, leb, ◌==◌, if◌then◌else◌, all, nat_eq,
}
use csc512_distributed_syste.Prelude.Text.{Text, codes, text_eq, split_at, join_by}
use csc512_distributed_syste.Cdup.Ir.{Node, Nodes, name, slot, const, op, nil, cons, Extra}

-- The prefixes of a list that are not empty, the shortest first.
unfoldable pub prefixes : List Text → List (List Text)
prefixes [] = []
prefixes (w ∷ ws) = (w ∷ []) ∷ map (λ p. w ∷ p) (prefixes ws)

-- `".".join(parts[:depth])` for depth = len(parts), …, 1: the scope and its ancestors.
unfoldable pub scopes : Text → List Text
unfolding prefixes
scopes scope_path = reverse (map (join_by b'.') (prefixes (split_at b'.' scope_path)))

abbrev pub within : Text → Text → Text
within scope n = scope ++ b'.' ∷ n

-- The loop over the candidates.
unfoldable pub resolve_in : Text → List Text → List Text → Option Text
resolve_in n slot_index [] = none
resolve_in n slot_index (scope ∷ rest) =
    let later = resolve_in n slot_index rest in
    if member (within scope n) slot_index then some (within scope n) else later

unfoldable pub is_alpha : ℕ → Bool
is_alpha c = leb b'a' c && leb c b'z' || (leb b'A' c && leb c b'Z' || c == b'_')

unfoldable pub is_digit : ℕ → Bool
is_digit c = leb b'0' c && leb c b'9'

unfoldable pub is_word : ℕ → Bool
unfolding is_alpha is_digit
is_word c = is_alpha c || is_digit c

-- `[A-Za-z_]\w*`, on ASCII text
unfoldable pub is_identifier : Text → Bool
unfolding is_word
is_identifier [] = false
is_identifier (c ∷ s) = is_alpha c && all is_word s

-- `\d+`
unfoldable pub is_number : Text → Bool
unfolding is_digit
is_number [] = false
is_number (c ∷ s) = all is_digit (c ∷ s)

-- The text before the first `[`, and the text after it.
unfoldable pub cut_bracket : Text → Option (Text × Text)
cut_bracket [] = none
cut_bracket (c ∷ s) =
    let rest = cut_bracket s in
    if c == b'[' then some ([], s) else elim rest [ none ↦ none | some p ↦ some (c ∷ p.0, p.1) ]

-- The text before a closing `]` that ends the name.
unfoldable pub drop_closing : Text → Option Text
drop_closing s = elim (reverse s) [
  | [] ↦ none
  | c ∷ rest ↦ if c == b']' then some (reverse rest) else none
]

-- The three forms of a name: `u[0]`, `u[i]` and all others.
pub data NameForm : Type 0 where
  static_index : Text → Text → NameForm
  dynamic_index : Text → NameForm
  plain : NameForm

unfoldable pub index_form : Text → Text → NameForm
unfolding is_identifier is_number
index_form base index =
    if is_identifier base
    then (if is_number index
        then static_index base index
        else if is_identifier index
        then dynamic_index base
        else plain)
    else plain

unfoldable pub name_form : Text → NameForm
unfolding cut_bracket drop_closing index_form
name_form n = elim (cut_bracket n) [
  | none ↦ plain
  | some p ↦ elim (drop_closing p.1) [ none ↦ plain | some index ↦ index_form p.0 index ]
]

unfoldable pub resolve_form : NameForm → Text → List Text → List Text → Option Text
unfolding resolve_in
resolve_form (static_index base index) n candidates slot_index =
    elim (resolve_in (base ++ b'.' ∷ index) slot_index candidates) [
      | some found ↦ some found
      | none ↦ resolve_in base slot_index candidates
    ]
resolve_form (dynamic_index base) n candidates slot_index = resolve_in base slot_index candidates
resolve_form plain n candidates slot_index = resolve_in n slot_index candidates

-- `_resolve_slot`
unfoldable pub resolve_slot : Text → Text → List Text → Option Text
unfolding scopes name_form resolve_form
resolve_slot n scope_path slot_index = resolve_form (name_form n) n (scopes scope_path) slot_index

-- `_resolve_expr`. A field access of a plain name is first tried as one dotted name.
unfoldable pub dotted_slot : Text → Extra → Nodes → Text → List Text → Option Text
dotted_slot o extra nil scope_path slot_index = none
dotted_slot o extra (cons (name object) rest) scope_path slot_index =
    if o == codes "field"
    then resolve_slot (object ++ b'.' ∷ (elim extra.field [ none ↦ [] | some f ↦ f ])) scope_path
        slot_index
    else none
dotted_slot o extra (cons _ rest) scope_path slot_index = none

unfoldable mutual
  unfolding dotted_slot

  pub resolve_expr : Node → Text → List Text → Node
  resolve_expr (name n) scope_path slot_index = elim (resolve_slot n scope_path slot_index) [
    | none ↦ name n
    | some found ↦ slot found
  ]
  resolve_expr (slot s) scope_path slot_index = slot s
  resolve_expr (const v) scope_path slot_index = const v
  resolve_expr (op o extra args) scope_path slot_index =
      let resolved = resolve_args args scope_path slot_index in
      elim (dotted_slot o extra args scope_path slot_index) [
        | none ↦ op o extra resolved
        | some found ↦ slot found
      ]

  pub resolve_args : Nodes → Text → List Text → Nodes
  resolve_args nil scope_path slot_index = nil
  resolve_args (cons n rest) scope_path slot_index =
      cons (resolve_expr n scope_path slot_index) (resolve_args rest scope_path slot_index)
