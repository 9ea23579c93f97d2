-- ===== src/Cdup/Json.antt =====
-- The `to_dict` methods of cdup/src/models.py: the data that is printed, in which a key may be missing.
pub mod Reading
use csc512_distributed_syste.Prelude.{
  ℕ, Bool, true, false, Option, none, some, List, [], ◌∷◌, map, if◌then◌else◌,
}
use csc512_distributed_syste.Prelude.Text.{Text}
use csc512_distributed_syste.Cdup.Ir.{Kind, Node, Slot, Statement, Segment, SegmentType}

pub record SlotEntry : Type 0 where
  pub name : Text
  pub scoped_name : Text
  pub type : Text
  pub constant : Bool
  pub param : Option Bool
  pub loop_iterator : Option Bool
  pub value : Option Text
  pub udt_parent : Option Text
  pub udt_type : Option Text

-- `if x: res[key] = …`: an empty text leaves the key out.
unfoldable pub unless_empty : Option Text → Option Text
unless_empty none = none
unless_empty (some []) = none
unless_empty (some (c ∷ s)) = some (c ∷ s)

unfoldable pub if_true : Bool → Option Bool
if_true b = if b then some true else none

unfoldable pub slot_to_dict : Slot → SlotEntry
unfolding unless_empty if_true
slot_to_dict s = record {
  name = s.name;
  scoped_name = s.scoped_name;
  type = s.type;
  constant = s.constant;
  param = if_true s.param;
  loop_iterator = if_true s.loop_iterator;
  value = s.value;
  udt_parent = unless_empty s.udt_parent;
  udt_type = unless_empty s.udt_type;
}

-- The first four keys are always there.
pub record StatementEntry : Type 0 where
  pub raw : Text
  pub kind : Kind
  pub l_name : Option Text
  pub r_names : List Text
  pub expr : Option Node
  pub type : Option Text
  pub iterator_type : Option Text

unfoldable pub statement_to_dict : Statement → StatementEntry
unfolding unless_empty
statement_to_dict s = record {
  raw = s.raw;
  kind = s.kind;
  l_name = s.l_name;
  r_names = s.r_names;
  expr = s.expr;
  type = unless_empty s.type;
  iterator_type = unless_empty s.iterator_type;
}

pub record SegmentEntry : Type 0 where
  pub id : ℕ
  pub parent : ℕ
  pub type : SegmentType
  pub name : Text
  pub scope_path : Text
  pub head : Option Text
  pub memory : List SlotEntry
  pub constants : List SlotEntry
  pub stmts : List StatementEntry

unfoldable pub segment_to_dict : Segment → SegmentEntry
unfolding slot_to_dict statement_to_dict
segment_to_dict s = record {
  id = s.id;
  parent = s.parent;
  type = s.type;
  name = s.name;
  scope_path = s.scope_path;
  head = s.head;
  memory = map slot_to_dict s.memory;
  constants = map slot_to_dict s.constants;
  stmts = map statement_to_dict s.stmts;
}
