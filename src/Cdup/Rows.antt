-- ===== src/Cdup/Rows.antt =====
-- cdup/src/matrix.py: the rows of the dependency matrix. The literals of a statement's text and the
-- names of constant slots come from cdup/src/parse.py, which is not modelled: they are a parameter.
pub mod Columns
use csc512_distributed_syste.Prelude.{
  ℕ, zero, suc, ◌+◌, Bool, true, false, ◌&&◌, ◌||◌, not, Option, none, some, List, [], ◌∷◌, ◌++◌,
  map, member, ◌==◌, if◌then◌else◌, any, length, select, nat_eq,
}
use csc512_distributed_syste.Prelude.Sort.{sorted}
use csc512_distributed_syste.Prelude.Text.{Text, codes, text_eq, text_leb, starts_with, drop}
use csc512_distributed_syste.Cdup.Ir.{
  Kind, decl, assign, branch, loop_head, control, call, func_decl, expr, phi, Node, Statement,
}
use csc512_distributed_syste.Cdup.Slots.{scopes, within, resolve_slot, resolve_expr}

pub record Literals : Type 0 where
  pub ints : List Text
  pub floats : List Text
  pub chars : List Text
  pub strings : List Text

pub data LiteralKind : Type 0 where
  int_literal float_literal char_literal string_literal : LiteralKind

-- `_extract_literals` and `_canonical_constant_name` of cdup/src/parse.py.
pub record Lexer : Type 0 where
  pub extract_literals : Text → Literals
  pub constant_name : LiteralKind → Text → ℕ → Text

pub data Note : Type 0 where
  no_note branch_reconvergence loop_entry : Note

pub record Row : Type 0 where
  pub kind : Kind
  pub seg_id : Option ℕ
  pub scope_path : Option Text
  pub raw : Text
  pub reads : List Text
  pub writes : List Text
  pub decls : List Text
  pub note : Note
  pub expr : Option Node

-- `list(dict.fromkeys(l))`: every element once, where it first stood.
unfoldable pub from_keys_loop : List Text → List Text → List Text
from_keys_loop seen [] = seen
from_keys_loop seen (x ∷ xs) = from_keys_loop (if member x seen then seen else seen ++ x ∷ []) xs

unfoldable pub from_keys : List Text → List Text
unfolding from_keys_loop
from_keys = from_keys_loop []

-- `_make_row`
unfoldable pub make_row :
    Kind
    → Option ℕ
    → Option Text
    → Text
    → List Text
    → List Text
    → List Text
    → Note
    → Option Node
    → Row
make_row kind seg_id scope_path raw reads writes decls note tree = record {
  kind = kind;
  seg_id = seg_id;
  scope_path = scope_path;
  raw = raw;
  reads = from_keys reads;
  writes = from_keys writes;
  decls = from_keys decls;
  note = note;
  expr = tree;
}

abbrev option_list : Option Text → List Text
option_list none = []
option_list (some s) = s ∷ []

unfoldable pub resolve_constants : (Text → ℕ → Text) → ℕ → List Text → Text → List Text → List Text
resolve_constants name index [] scope_path slot_index = []
resolve_constants name index (v ∷ vs) scope_path slot_index =
    option_list (resolve_slot (name v index) scope_path slot_index)
    ++ resolve_constants name (suc index) vs scope_path slot_index

-- `_extract_literal_slots`. Only the names of strings depend on the index.
unfoldable pub extract_literal_slots : Lexer → Text → Text → List Text → List Text
unfolding resolve_constants
extract_literal_slots lexer raw scope_path slot_index =
    let found = lexer.extract_literals raw in
    resolve_constants (λ v n. lexer.constant_name int_literal v 0) 0 found.ints scope_path
      slot_index
    ++ resolve_constants (λ v n. lexer.constant_name float_literal v 0) 0 found.floats scope_path
        slot_index
    ++ resolve_constants (λ v n. lexer.constant_name char_literal v 0) 0 found.chars scope_path
        slot_index
    ++ resolve_constants (lexer.constant_name string_literal) 0 found.strings scope_path slot_index

unfoldable pub has_dot : Text → Bool
has_dot = any (λ c. c == b'.')

unfoldable pub field_prefix : Text → Text → Text
field_prefix scope n = within scope n ++ b'.' ∷ []

-- The field slots of a variable in the current scope: one identifier after the prefix.
unfoldable pub expand_fields : Text → Text → List Text → List Text
unfolding has_dot field_prefix
expand_fields n scope_path slot_index =
    let prefix = field_prefix scope_path n in
    sorted text_leb
      (select (λ s. starts_with s prefix && not (has_dot (drop (length prefix) s))) slot_index)

unfoldable pub read_name : Text → Text → List Text → List Text
unfolding expand_fields
read_name n scope_path slot_index = elim (resolve_slot n scope_path slot_index) [
  | some found ↦ found ∷ []
  | none ↦ expand_fields n scope_path slot_index
]

unfoldable pub read_names : List Text → Text → List Text → List Text
unfolding read_name
read_names [] scope_path slot_index = []
read_names (n ∷ ns) scope_path slot_index =
    read_name n scope_path slot_index ++ read_names ns scope_path slot_index

-- The declaration of a structure: the slots under the first scope that has any.
unfoldable pub declared_fields : Text → List Text → List Text → List Text
unfolding field_prefix
declared_fields n slot_index [] = []
declared_fields n slot_index (scope ∷ rest) =
    let later = declared_fields n slot_index rest in
    elim (select (λ s. starts_with s (field_prefix scope n)) slot_index) [
      | [] ↦ later
      | m ∷ ms ↦ sorted text_leb (m ∷ ms)
    ]

-- The reads, writes and declarations of a statement.
pub record Effects : Type 0 where
  pub reads : List Text
  pub writes : List Text
  pub decls : List Text

unfoldable pub decl_effects : List Text → Text → Text → List Text → Effects
unfolding declared_fields
decl_effects reads n scope_path slot_index = elim (resolve_slot n scope_path slot_index) [
  | some scoped ↦ record { reads = reads; writes = scoped ∷ []; decls = scoped ∷ [] }
  | none ↦
      let fields = declared_fields n slot_index (scopes scope_path) in
      record { reads = reads; writes = fields; decls = fields }
]

unfoldable pub assign_effects : List Text → Text → Text → List Text → Effects
assign_effects reads n scope_path slot_index = record {
  reads = reads;
  writes = option_list (resolve_slot n scope_path slot_index);
  decls = [];
}

-- The iterator is declared and written by the loop's head, and so is not one of its reads.
unfoldable pub loop_effects : List Text → Text → Text → List Text → Effects
loop_effects reads n scope_path slot_index = elim (resolve_slot n scope_path slot_index) [
  | some scoped ↦ record {
    reads = select (λ r. not (r == scoped)) reads;
    writes = scoped ∷ [];
    decls = scoped ∷ [];
  }
  | none ↦ record { reads = reads; writes = []; decls = [] }
]

-- The three kinds that write, for a left side that is there; an empty name counts as none.
unfoldable pub effects : Kind → List Text → Option Text → Text → List Text → Effects
unfolding decl_effects assign_effects loop_effects
effects kind reads none scope_path slot_index = record { reads = reads; writes = []; decls = [] }
effects kind reads (some []) scope_path slot_index = record {
  reads = reads;
  writes = [];
  decls = [];
}
effects decl reads (some (c ∷ n)) scope_path slot_index =
    decl_effects reads (c ∷ n) scope_path slot_index
effects assign reads (some (c ∷ n)) scope_path slot_index =
    assign_effects reads (c ∷ n) scope_path slot_index
effects loop_head reads (some (c ∷ n)) scope_path slot_index =
    loop_effects reads (c ∷ n) scope_path slot_index
effects _ reads (some (c ∷ n)) scope_path slot_index = record {
  reads = reads;
  writes = [];
  decls = [];
}

-- `_stmt_to_row`
unfoldable pub stmt_to_row : Lexer → Statement → ℕ → Text → List Text → Row
unfolding make_row extract_literal_slots read_names effects
stmt_to_row lexer stmt seg_id scope_path slot_index =
    let reads =
      read_names stmt.r_names scope_path slot_index
      ++ extract_literal_slots lexer stmt.raw scope_path slot_index in
    let e = effects stmt.kind reads stmt.l_name scope_path slot_index in
    make_row stmt.kind (some seg_id) (some scope_path) stmt.raw e.reads e.writes e.decls no_note
      (elim stmt.expr [ none ↦ none | some tree ↦ some (resolve_expr tree scope_path slot_index) ])
