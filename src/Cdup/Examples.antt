-- ===== src/Cdup/Examples.antt =====
-- A small parsed program, on which the properties of cdup are evaluated.
use csc512_distributed_syste.Prelude.{
  map, pair_eq, nat_eq, ◌≡◌, refl, false, Option, none, some, List, [], ◌∷◌, member, Distinct, All,
  arith,
}
use csc512_distributed_syste.Prelude.Sort.{sorted}
use csc512_distributed_syste.Prelude.Dict.{get, put, get_or, keys}
use csc512_distributed_syste.Prelude.Text.{Text, codes, text_eq}
use csc512_distributed_syste.Cdup.Ir.{
  assign, Node, name, const, int, op, nil, cons, Slot, Statement, Segment, root, function,
}
use csc512_distributed_syste.Cdup.Json.{segment_to_dict}
use csc512_distributed_syste.Cdup.Json.Reading.{
  IsPrinted, read_segment, read_segment-segment_to_dict,
}
use csc512_distributed_syste.Cdup.Slots.{within, name_form, resolve_slot, resolve_expr}
use csc512_distributed_syste.Cdup.Slots.Innermost.{
  ResolvesName, IsIn, SlotsIn, resolve_slot-ResolvesName, resolve_slot-IsIn, resolve_expr-SlotsIn,
}
use csc512_distributed_syste.Cdup.Rows.{Lexer, stmt_to_row}
use csc512_distributed_syste.Cdup.Rows.Columns.{IsRow, stmt_to_row-IsRow}
use csc512_distributed_syste.Cdup.Matrix.{Matrix, build_matrix, seg_by_id, build_children}
use csc512_distributed_syste.Cdup.Dag.{Dag, key, build_dag}
use csc512_distributed_syste.Cdup.Dag.Sources.{IsFlow}
use csc512_distributed_syste.Cdup.Dag.Total.{build_dag-returns}
use csc512_distributed_syste.Cdup.Dag.Flows.{build_dag-IsFlow}
use csc512_distributed_syste.Cdup.Matrix.Total.{build_matrix-returns}
use csc512_distributed_syste.Cdup.Matrix.Phis.{IsSound}
use csc512_distributed_syste.Cdup.Matrix.Sound.{build_matrix-IsSound}

abbrev a_slot : Text → Slot
a_slot n = record {
  name = n;
  scoped_name = within (codes "root.f") n;
  type = codes "int";
  constant = false;
  param = false;
  loop_iterator = false;
  value = none;
  udt_parent = none;
  udt_type = none;
}

abbrev a_sum : Node
a_sum =
    op (codes "add") (record { field = none; type = none; fn = none; of = none })
      (cons (name (codes "x")) (cons (const (int 1)) nil))

abbrev an_assignment : Statement
an_assignment = record {
  raw = codes "y = x + 1";
  kind = assign;
  l_name = some (codes "y");
  r_names = codes "x" ∷ codes "x" ∷ [];
  expr = some a_sum;
  type = none;
  iterator_type = none;
}

abbrev a_segment : Segment
a_segment = record {
  id = 1;
  parent = 0;
  type = function;
  name = codes "f";
  scope_path = codes "root.f";
  head = none;
  memory = a_slot (codes "x") ∷ a_slot (codes "y") ∷ [];
  constants = [];
  stmts = an_assignment ∷ [];
}

abbrev two_segments : List Segment
two_segments =
    record {
      id = 0;
      parent = 0;
      type = root;
      name = codes "root";
      scope_path = codes "root";
      head = none;
      memory = [];
      constants = [];
      stmts = [];
    }
    ∷ a_segment
    ∷ []

-- A lexer that finds no literals.
abbrev no_literals : Lexer
no_literals = record {
  extract_literals = λ raw. record { ints = []; floats = []; chars = []; strings = [] };
  constant_name = λ kind v n. v;
}

abbrev two_slots : List Text
two_slots = codes "root.f.x" ∷ codes "root.f.y" ∷ []

resolve_slot-ResolvesName_example :
    ResolvesName
      (codes "x")
      two_slots
      (codes "root.f.b")
      (name_form (codes "x"))
      (resolve_slot (codes "x") (codes "root.f.b") two_slots)
resolve_slot-ResolvesName_example =
    resolve_slot-ResolvesName (codes "x") (codes "root.f.b") two_slots

resolve_slot-IsIn_example : IsIn two_slots (resolve_slot (codes "x[i]") (codes "root.f") two_slots)
resolve_slot-IsIn_example = resolve_slot-IsIn (codes "x[i]") (codes "root.f") two_slots

resolve_expr-SlotsIn_example : SlotsIn two_slots (resolve_expr a_sum (codes "root.f") two_slots)
resolve_expr-SlotsIn_example = resolve_expr-SlotsIn two_slots (codes "root.f") a_sum (tt, (tt, tt))

stmt_to_row-IsRow_example :
    IsRow two_slots (stmt_to_row no_literals an_assignment 1 (codes "root.f") two_slots)
stmt_to_row-IsRow_example = stmt_to_row-IsRow no_literals an_assignment 1 (codes "root.f") two_slots

abbrev matrix_of : Option Matrix → Matrix
matrix_of none = record { slots = []; rows = [] }
matrix_of (some m) = m

abbrev a_matrix : Matrix
a_matrix = matrix_of (build_matrix no_literals 2 two_segments)

build_matrix-runs : build_matrix no_literals 2 two_segments ≡ some a_matrix
unfolding build_matrix sorted get seg_by_id put get_or build_children
build_matrix-runs = refl

build_matrix-IsSound_example : Distinct a_matrix.slots × All (IsSound a_matrix.slots) a_matrix.rows
build_matrix-IsSound_example =
    build_matrix-IsSound no_literals 2 two_segments a_matrix build_matrix-runs

build_matrix-returns_example : (m : Matrix) × (build_matrix no_literals 2 two_segments ≡ some m)
build_matrix-returns_example =
    build_matrix-returns no_literals 2 two_segments
      ((omega arith, omega arith), ((omega arith, omega arith), tt))

abbrev dag_of : Option Dag → Dag
dag_of none = record { nodes = []; edges = [] }
dag_of (some d) = d

abbrev a_dag : Dag
a_dag = dag_of (build_dag two_segments a_matrix)

build_dag-runs : build_dag two_segments a_matrix ≡ some a_dag
unfolding build_dag sorted get_or get build_matrix seg_by_id put build_children stmt_to_row member
    keys
build_dag-runs = refl

build_dag-IsFlow_example : All (IsFlow a_dag.nodes) a_dag.edges × Distinct (map key a_dag.edges)
build_dag-IsFlow_example = build_dag-IsFlow two_segments a_matrix a_dag build_dag-runs

none-IsPrinted : IsPrinted none
none-IsPrinted h = cc

read_segment-segment_to_dict_example : read_segment (segment_to_dict a_segment) ≡ a_segment
read_segment-segment_to_dict_example =
    read_segment-segment_to_dict a_segment
      ((none-IsPrinted, none-IsPrinted), ((none-IsPrinted, none-IsPrinted), tt)) tt
      ((none-IsPrinted, none-IsPrinted), tt)

build_dag-returns_example :
    (m : Matrix) × ((d : Dag) × ((build_matrix no_literals 2 two_segments ≡ some m)
        × (build_dag two_segments m ≡ some d)))
build_dag-returns_example =
    build_dag-returns no_literals 2 two_segments
      ((omega arith, omega arith), ((omega arith, omega arith), tt))
