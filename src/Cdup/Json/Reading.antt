-- ===== src/Cdup/Json/Reading.antt =====
-- The printed data says all that a segment holds: it can be read back.
use csc512_distributed_syste.Prelude.{
  ◌≡◌, ◌≢◌, refl, Bool, true, false, Option, none, some, List, [], ◌∷◌, map, All,
}
use csc512_distributed_syste.Prelude.Text.{Text}
use csc512_distributed_syste.Cdup.Ir.{Slot, Statement, Segment}
use csc512_distributed_syste.Cdup.Json.{
  SlotEntry, unless_empty, if_true, slot_to_dict, StatementEntry, statement_to_dict, SegmentEntry,
  segment_to_dict,
}

abbrev is_there : Option Bool → Bool
is_there none = false
is_there (some b) = b

-- A reader: a missing key is the default of the field.
pub read_slot : SlotEntry → Slot
read_slot e = record {
  name = e.name;
  scoped_name = e.scoped_name;
  type = e.type;
  constant = e.constant;
  param = is_there e.param;
  loop_iterator = is_there e.loop_iterator;
  value = e.value;
  udt_parent = e.udt_parent;
  udt_type = e.udt_type;
}

pub read_statement : StatementEntry → Statement
read_statement e = record {
  raw = e.raw;
  kind = e.kind;
  l_name = e.l_name;
  r_names = e.r_names;
  expr = e.expr;
  type = e.type;
  iterator_type = e.iterator_type;
}

pub read_segment : SegmentEntry → Segment
unfolding read_slot read_statement
read_segment e = record {
  id = e.id;
  parent = e.parent;
  type = e.type;
  name = e.name;
  scope_path = e.scope_path;
  head = e.head;
  memory = map read_slot e.memory;
  constants = map read_slot e.constants;
  stmts = map read_statement e.stmts;
}

-- An optional text is not the empty one, which is printed as if it were missing.
abbrev pub IsPrinted : Option Text → Type 0
IsPrinted o = o ≢ some []

abbrev pub IsSlotPrinted : Slot → Type 0
IsSlotPrinted s = IsPrinted s.udt_parent × IsPrinted s.udt_type

abbrev pub IsStatementPrinted : Statement → Type 0
IsStatementPrinted s = IsPrinted s.type × IsPrinted s.iterator_type

unless_empty_lem : (o : Option Text) → IsPrinted o → unless_empty o ≡ o
unfolding unless_empty
unless_empty_lem none h = refl
unless_empty_lem (some []) h = absurd (h refl)
unless_empty_lem (some (c ∷ s)) h = refl

if_true_lem : (b : Bool) → is_there (if_true b) ≡ b
unfolding if_true
if_true_lem true = refl
if_true_lem false = refl

read_slot-slot_to_dict : (s : Slot) → IsSlotPrinted s → read_slot (slot_to_dict s) ≡ s
unfolding read_slot slot_to_dict
read_slot-slot_to_dict s h =
    rw
      (
        unless_empty_lem s.udt_parent h.0,
        unless_empty_lem s.udt_type h.1,
        if_true_lem s.param,
        if_true_lem s.loop_iterator,
      )
      refl

read_statement-statement_to_dict :
    (s : Statement) → IsStatementPrinted s → read_statement (statement_to_dict s) ≡ s
unfolding read_statement statement_to_dict
read_statement-statement_to_dict s h =
    rw (unless_empty_lem s.type h.0, unless_empty_lem s.iterator_type h.1) refl

map-read {ℓ κ μ} :
    {A : Type ℓ} {B : Type κ} (P : A → Type μ) (write : A → B) (read : B → A)
    → ((a : A) → P a → read (write a) ≡ a)
    → (xs : List A) → All P xs
    → map read (map write xs) ≡ xs
map-read P write read f [] h = refl
map-read P write read f (x ∷ xs) h = cc (f x h.0, map-read P write read f xs h.1)

-- A segment can be read back from its printed data, if none of its optional texts, the structure and
-- the structure's type of a slot and the two types of a statement, is the empty text.
pub read_segment-segment_to_dict :
    (s : Segment)
    → All IsSlotPrinted s.memory
    → All IsSlotPrinted s.constants
    → All IsStatementPrinted s.stmts
    → read_segment (segment_to_dict s) ≡ s
unfolding read_segment segment_to_dict
read_segment-segment_to_dict s m c t =
    rw
      (
        map-read IsSlotPrinted slot_to_dict read_slot read_slot-slot_to_dict s.memory m,
        map-read IsSlotPrinted slot_to_dict read_slot read_slot-slot_to_dict s.constants c,
        map-read IsStatementPrinted statement_to_dict read_statement
            read_statement-statement_to_dict s.stmts t,
      )
      refl
