-- ===== src/Cdup/Expr/Pratt/Places.antt =====
-- An operand before the parser of cdup/src/expr.py, in parentheses or not, and the operator after it.
use csc512_distributed_syste.Prelude.{
  ℕ, suc, ◌+◌, ◌-◌, ◌*◌, ◌≤◌, ◌<◌, ◌≡◌, refl, subst, ◌∙◌, Bool, true, false, List, [], ◌∷◌, length,
  leb, leb→le, arith,
}
use csc512_distributed_syste.Prelude.Text.{Text, codes, text_eq}
use csc512_distributed_syste.Cdup.Ir.{Node}
use csc512_distributed_syste.Cdup.Expr.Tokens.{op, Token, token}
use csc512_distributed_syste.Cdup.Expr.Parser.{Result, ok}
use csc512_distributed_syste.Cdup.Expr.Pratt.{led, parse, parse_loop, parse_arguments}
use csc512_distributed_syste.Cdup.Expr.Pratt.Surface.{
  Expr, number, string, character, var, unary, cast, binary, index, field, post_inc, post_dec,
  level, power, enclosed, shown, tree, IsExpr,
}
use csc512_distributed_syste.Cdup.Expr.Pratt.NoCast.{shown-NoCast}
use csc512_distributed_syste.Cdup.Expr.Pratt.Turns.{power_ge, stop, turn}
use csc512_distributed_syste.Cdup.Expr.Pratt.Denotations.{nud-parens}
use csc512_distributed_syste.Cdup.Expr.Pratt.Widths.{
  closes, IsPostfix, turns, turns_at, longer_at, shown-longer,
}

module _ (is_float : Text → Bool) where
  -- With fuel for all tokens, the parser comes to its loop with the tree of `e`.
  abbrev pub Shows : Expr → Type 0
  Shows e =
      (f m : ℕ) (t : Token) (ts : List Token)
      → m < level e
      → m ≤ 100
      → power t.text ≤ level e
      → 2 * length (shown e (t ∷ ts)) < turns e + f
      → parse is_float (turns e + f) m (shown e (t ∷ ts))
        ≡ parse_loop is_float f m (tree e) (t ∷ ts)

  pub level_ge : (e : Expr) → IsExpr is_float e → 1 ≤ level e
  unfolding level IsExpr
  level_ge (binary o l r) w = leb→le _ _ (power_ge o w.0)
  level_ge (number t) w = omega arith
  level_ge (string t) w = omega arith
  level_ge (character t) w = omega arith
  level_ge (var x) w = omega arith
  level_ge (unary o e) w = omega arith
  level_ge (cast ps e) w = omega arith
  level_ge (index l i) w = omega arith
  level_ge (field s l x) w = omega arith
  level_ge (Expr.call l args) w = omega arith
  level_ge (post_inc l) w = omega arith
  level_ge (post_dec l) w = omega arith

  pub same_fuel :
      (f g m : ℕ) (ts : List Token) (r : Result Node)
      → f ≡ g
      → parse is_float f m ts ≡ r
      → parse is_float g m ts ≡ r
  same_fuel f g m ts r e h = subst (λ n. parse is_float n m ts ≡ r) e h

  pub shown_closed :
      (e : Expr)
      → Shows e
      → (f m : ℕ) (t : Token) (ts : List Token) → m < level e
      → m ≤ 100
      → power t.text ≤ m
      → 2 * length (shown e (t ∷ ts)) < f
      → parse is_float f m (shown e (t ∷ ts)) ≡ ok (tree e) (t ∷ ts)
  shown_closed e ih f m t ts a b c d =
      let left = f - turns e - 1 in
      let split : turns e + suc left ≡ f = omega (arith, shown-longer e (t ∷ ts)) in
      same_fuel (turns e + suc left) f m (shown e (t ∷ ts)) (ok (tree e) (t ∷ ts)) split (
        ih (suc left) m t ts a b (omega arith) (omega arith) ∙ stop is_float left m (tree e) t ts c)

  -- The same of an operand, in parentheses or not.
  abbrev pub Places : Expr → Type 0
  Places e =
      (q f m : ℕ) (t : Token) (ts : List Token)
      → m < q
      → m ≤ 100
      → power t.text ≤ q
      → 2 * length (enclosed (leb q (level e)) (λ us. shown e us) (t ∷ ts))
        < turns_at (leb q (level e)) (turns e) + f
      → parse is_float (turns_at (leb q (level e)) (turns e) + f) m
          (enclosed (leb q (level e)) (λ us. shown e us) (t ∷ ts))
        ≡ parse_loop is_float f m (tree e) (t ∷ ts)

  parens-Places :
      (e : Expr)
      → IsExpr is_float e
      → Shows e
      → (f m : ℕ) (t : Token) (ts : List Token)
      → 2 * length (enclosed false (λ us. shown e us) (t ∷ ts)) < 1 + f
      → parse is_float (suc f) m (enclosed false (λ us. shown e us) (t ∷ ts))
        ≡ parse_loop is_float f m (tree e) (t ∷ ts)
  unfolding parse
  parens-Places e w ih f m t ts h =
      let close = token op (codes ")") in
      let inner : parse is_float f 0 (shown e (close ∷ t ∷ ts)) ≡ ok (tree e) (close ∷ t ∷ ts) =
        shown_closed e ih f 0 close (t ∷ ts) (level_ge e w) (omega arith) closes (omega arith) in
      rw
        (nud-parens is_float (λ bp us. parse is_float f bp us) (shown e (close ∷ t ∷ ts)) (t ∷ ts)
          (tree e) (shown-NoCast is_float e w [] (close ∷ t ∷ ts)) inner)
        refl

  pub placed : (e : Expr) → IsExpr is_float e → Shows e → Places e
  placed e w ih q f m t ts a b c h = at (leb q (level e)) refl h
    where
      at :
          (x : Bool)
          → leb q (level e) ≡ x
          → 2 * length (enclosed x (λ us. shown e us) (t ∷ ts)) < turns_at x (turns e) + f
          → parse is_float (turns_at x (turns e) + f) m (enclosed x (λ us. shown e us) (t ∷ ts))
            ≡ parse_loop is_float f m (tree e) (t ∷ ts)
      at true g k =
          let le = leb→le q (level e) g in ih f m t ts (omega (arith, le)) b (omega (arith, le)) k
      at false g k = same_fuel (suc f) (1 + f) m _ _ (omega arith) (parens-Places e w ih f m t ts k)

  pub placed_closed :
      (e : Expr)
      → IsExpr is_float e
      → Shows e
      → (q f m : ℕ) (t : Token) (ts : List Token) → m < q
      → m ≤ 100
      → power t.text ≤ m
      → 2 * length (enclosed (leb q (level e)) (λ us. shown e us) (t ∷ ts)) < f
      → parse is_float f m (enclosed (leb q (level e)) (λ us. shown e us) (t ∷ ts))
        ≡ ok (tree e) (t ∷ ts)
  placed_closed e w ih q f m t ts a b c d =
      let n = turns_at (leb q (level e)) (turns e) in
      let left = f - n - 1 in
      let written = enclosed (leb q (level e)) (λ us. shown e us) (t ∷ ts) in
      let split : n + suc left ≡ f =
        omega (arith, longer_at (leb q (level e)) e (t ∷ ts) (shown-longer e)) in
      same_fuel (n + suc left) f m written (ok (tree e) (t ∷ ts)) split (
        placed e w ih q (suc left) m t ts a b (omega arith) (omega arith)
        ∙ stop is_float left m (tree e) t ts c)

  -- An operator after its left operand, when what follows it is read.
  pub operated :
      (l : Expr)
      → IsExpr is_float l
      → Shows l
      → (q f m : ℕ) (o : Text) (tail rest : List Token) (new : Node) → m < power o
      → power o ≤ q
      → m ≤ 100
      → 2 * length (enclosed (leb q (level l)) (λ us. shown l us) (token op o ∷ tail))
        < suc (turns_at (leb q (level l)) (turns l)) + f
      → led
          (λ bp us. parse is_float f bp us)
          (λ us. parse_arguments is_float f us)
          (tree l)
          (token op o ∷ tail)
        ≡ ok new rest
      → parse is_float
          (suc (turns_at (leb q (level l)) (turns l)) + f)
          m
          (enclosed (leb q (level l)) (λ us. shown l us) (token op o ∷ tail))
        ≡ parse_loop is_float f m new rest
  operated l w ih q f m o tail rest new a b c d h =
      let n = turns_at (leb q (level l)) (turns l) in
      let read = turn is_float f m (tree l) o tail a in
      same_fuel (n + suc f) (suc n + f) m _ _ (omega arith) (
        placed l w ih q (suc f) m (token op o) tail (omega (arith, a, b)) c b (omega arith)
        ∙ (rw h at read))

  -- A postfix operator: its left operand binds as the strongest do.
  pub after_operand :
      (l : Expr)
      → IsExpr is_float l
      → Shows l
      → (f m : ℕ) (o : Text) (tail rest : List Token) (new : Node) → IsPostfix o
      → m ≤ 100
      → 2 * length (enclosed (leb 130 (level l)) (λ us. shown l us) (token op o ∷ tail))
        < suc (turns_at (leb 130 (level l)) (turns l)) + f
      → led
          (λ bp us. parse is_float f bp us)
          (λ us. parse_arguments is_float f us)
          (tree l)
          (token op o ∷ tail)
        ≡ ok new rest
      → parse is_float
          (suc (turns_at (leb 130 (level l)) (turns l)) + f)
          m
          (enclosed (leb 130 (level l)) (λ us. shown l us) (token op o ∷ tail))
        ≡ parse_loop is_float f m new rest
  unfolding IsPostfix
  after_operand l w ih f m o tail rest new a c =
      operated l w ih 130 f m o tail rest new (omega (arith, a.0, c)) a.1 c
