-- ===== src/Cdup/Ir.antt =====
-- cdup/src/models.py, and the expression trees of cdup/src/expr.py as far as they are shapes.
use csc512_distributed_syste.Prelude.{ℕ, Bool, Option, List}
use csc512_distributed_syste.Prelude.Text.{Text}

-- `kind` of a statement, and of a row of the matrix, where `phi` is one more.
pub data Kind : Type 0 where
  decl assign branch loop_head control call func_decl expr phi : Kind

-- The value of a literal node: the number of an integer, the source text of any other.
pub data Literal : Type 0 where
  int : ℕ → Literal
  float char string : Text → Literal

-- The optional keys of an operation node.
pub record Extra : Type 0 where
  pub field : Option Text
  pub type : Option Text
  pub fn : Option Text
  pub of : Option Text

mutual
  pub data Node : Type 0 where
    name : Text → Node
    slot : Text → Node
    const : Literal → Node
    op : Text → Extra → Nodes → Node

  pub data Nodes : Type 0 where
    nil : Nodes
    cons : Node → Nodes → Nodes

pub record Slot : Type 0 where
  pub name : Text
  pub scoped_name : Text
  pub type : Text
  pub constant : Bool
  pub param : Bool
  pub loop_iterator : Bool
  pub value : Option Text
  pub udt_parent : Option Text
  pub udt_type : Option Text

pub record Statement : Type 0 where
  pub raw : Text
  pub kind : Kind
  pub l_name : Option Text
  pub r_names : List Text
  pub expr : Option Node
  pub type : Option Text
  pub iterator_type : Option Text

pub data SegmentType : Type 0 where
  root function loop branch struct class : SegmentType

pub record Segment : Type 0 where
  pub id : ℕ
  pub parent : ℕ
  pub type : SegmentType
  pub name : Text
  pub scope_path : Text
  pub head : Option Text
  pub memory : List Slot
  pub constants : List Slot
  pub stmts : List Statement
