-- ===== src/Cdup/Expr/Pratt/Surface.antt =====
-- C expressions as they are written, their tokens with no more parentheses than the binding powers of
-- cdup/src/expr.py ask for, and the trees they stand for.
use csc512_distributed_syste.Prelude.{
  ℕ, suc, ◌≡◌, Bool, true, false, not, ◌||◌, ◌≢◌, List, [], ◌∷◌, member, leb, ◌==◌, All,
  if◌then◌else◌,
}
use csc512_distributed_syste.Prelude.Dict.{get_or, keys}
use csc512_distributed_syste.Prelude.Text.{Text, codes, text_eq, join_by}
use mathlib.Core.Option.{some}
use csc512_distributed_syste.Cdup.Ir.{Node, Nodes, Literal, int, float, nil, cons}
use csc512_distributed_syste.Cdup.Expr.Tokens.{num, str, char, name, op, Token, token}
use csc512_distributed_syste.Cdup.Expr.Parser.{
  lbp, binop, unop, cast_types, plain, one, two, int_value, strip_suffix, is_float_text,
}
use csc512_distributed_syste.Cdup.Expr.Pratt.{callee}

-- An operator, a separator and the parts of a type are the texts of their tokens.
mutual
  pub data Expr : Type 0 where
    number string character var : Text → Expr
    unary : Text → Expr → Expr
    cast : List Text → Expr → Expr
    binary : Text → Expr → Expr → Expr
    index : Expr → Expr → Expr
    field : Text → Expr → Text → Expr
    call : Expr → Exprs → Expr
    post_inc post_dec : Expr → Expr

  pub data Exprs : Type 0 where
    empty : Exprs
    more : Expr → Exprs → Exprs

unfoldable mutual
  unfolding unop binop callee int_value strip_suffix is_float_text

  pub tree : Expr → Node
  tree (number t) =
      if is_float_text t
      then Node.const (float t)
      else Node.const (int (int_value (strip_suffix t)))
  tree (string t) = Node.const (Literal.string t)
  tree (character t) = Node.const (Literal.char t)
  tree (var x) = Node.name x
  tree (unary o e) = Node.op (get_or o [] unop) plain (one (tree e))
  tree (cast parts e) =
      Node.op (codes "cast") (record plain { type = some (join_by b' ' parts) }) (one (tree e))
  tree (binary o l r) = Node.op (get_or o [] binop) plain (two (tree l) (tree r))
  tree (index l i) = Node.op (codes "index") plain (two (tree l) (tree i))
  tree (field s l x) = Node.op (codes "field") (record plain { field = some x }) (one (tree l))
  tree (call l args) =
      Node.op (codes "call") (record plain { fn = some (callee (tree l)) }) (trees args)
  tree (post_inc l) = Node.op (codes "post_inc") plain (one (tree l))
  tree (post_dec l) = Node.op (codes "post_dec") plain (one (tree l))

  pub trees : Exprs → Nodes
  trees empty = nil
  trees (more e es) = cons (tree e) (trees es)

unfoldable pub level : Expr → ℕ
unfolding lbp
level (unary o e) = 99
level (cast parts e) = 99
level (binary o l r) = get_or o 0 lbp
level _ = 130

-- `get(t, 0)` of the binding powers
abbrev pub power : Text → ℕ
unfolding lbp
power t = get_or t 0 lbp

unfoldable pub type_tokens : List Text → List Token → List Token
type_tokens [] ts = ts
type_tokens (p ∷ ps) ts =
    token (elim (p == codes "*") [ true ↦ op | false ↦ name ]) p ∷ type_tokens ps ts

abbrev pub enclosed : Bool → (List Token → List Token) → List Token → List Token
enclosed true f ts = f ts
enclosed false f ts = token op (codes "(") ∷ f (token op (codes ")") ∷ ts)

-- The tokens of an expression in front of others. An operand stands in parentheses unless it binds as
-- strongly as its place asks.
unfoldable mutual
  unfolding level type_tokens

  pub shown : Expr → List Token → List Token
  shown (number t) ts = token num t ∷ ts
  shown (string t) ts = token str t ∷ ts
  shown (character t) ts = token char t ∷ ts
  shown (var x) ts = token name x ∷ ts
  shown (unary o e) ts = token op o ∷ enclosed (leb 100 (level e)) (λ us. shown e us) ts
  shown (cast parts e) ts =
      token op (codes "(")
      ∷ type_tokens parts
          (token op (codes ")") ∷ enclosed (leb 100 (level e)) (λ us. shown e us) ts)
  shown (binary o l r) ts =
      enclosed (leb (power o) (level l)) (λ us. shown l us)
        (token op o ∷ enclosed (leb (suc (power o)) (level r)) (λ us. shown r us) ts)
  shown (index l i) ts =
      enclosed (leb 130 (level l)) (λ us. shown l us)
        (token op (codes "[")
          ∷ enclosed (leb 1 (level i)) (λ us. shown i us) (token op (codes "]") ∷ ts))
  shown (field s l x) ts =
      enclosed (leb 130 (level l)) (λ us. shown l us) (token op s ∷ token name x ∷ ts)
  shown (call l args) ts =
      enclosed (leb 130 (level l)) (λ us. shown l us)
        (token op (codes "(") ∷ shown_all args (token op (codes ")") ∷ ts))
  shown (post_inc l) ts =
      enclosed (leb 130 (level l)) (λ us. shown l us) (token op (codes "++") ∷ ts)
  shown (post_dec l) ts =
      enclosed (leb 130 (level l)) (λ us. shown l us) (token op (codes "--") ∷ ts)

  pub shown_all : Exprs → List Token → List Token
  shown_all empty ts = ts
  shown_all (more e empty) ts = enclosed (leb 1 (level e)) (λ us. shown e us) ts
  shown_all (more e (more d es)) ts =
      enclosed (leb 1 (level e)) (λ us. shown e us)
        (token op (codes ",") ∷ shown_all (more d es) ts)

unfoldable pub print : ℕ → Expr → List Token → List Token
unfolding shown level
print q e = enclosed (leb q (level e)) (λ us. shown e us)

module _ (is_float : Text → Bool) where
  -- What the tokenizer and the tables allow as the texts of an expression.
  unfoldable mutual
    unfolding is_float_text cast_types unop binop

    pub IsExpr : Expr → Type 0
    IsExpr (number t) = (t == codes ")" ≡ false) × (not (is_float_text t) || is_float t ≡ true)
    IsExpr (string t) = t == codes ")" ≡ false
    IsExpr (character t) = t == codes ")" ≡ false
    IsExpr (var x) =
        (x == codes ")" ≡ false) × ((x == codes "sizeof" ≡ false) × (member x cast_types ≡ false))
    IsExpr (unary o e) = (member o (keys unop) ≡ true) × IsExpr e
    IsExpr (cast parts e) =
        (parts ≢ []) × (All (λ p. p == codes "*" || member p cast_types ≡ true) parts × IsExpr e)
    IsExpr (binary o l r) = (member o (keys binop) ≡ true) × (IsExpr l × IsExpr r)
    IsExpr (index l i) = IsExpr l × IsExpr i
    IsExpr (field s l x) = (s == codes "." || s == codes "->" ≡ true) × IsExpr l
    IsExpr (call l args) = IsExpr l × AreExprs args
    IsExpr (post_inc l) = IsExpr l
    IsExpr (post_dec l) = IsExpr l

    pub AreExprs : Exprs → Type 0
    AreExprs empty = Unit
    AreExprs (more e es) = IsExpr e × AreExprs es
