-- ===== src/Cdup/Expr/Pratt/RoundTrip.antt =====
-- The parser of cdup/src/expr.py reads what an expression prints.
use csc512_distributed_syste.Prelude.{
  ℕ, zero, suc, ◌+◌, ◌*◌, ◌<◌, ◌≡◌, refl, subst, ◌≢◌, Bool, true, List, [], ◌∷◌, length, leb,
  leb→le, member, member-of_all, all, nat_eq, ◌==◌, arith, sound,
}
use csc512_distributed_syste.Prelude.Dict.{get, get_or, keys}
use csc512_distributed_syste.Prelude.Text.{Text, codes, text_eq, text_beq, join_by}
use mathlib.Core.Option.{some}
use csc512_distributed_syste.Cdup.Expr.Tokens.{name, op, eof, Token, token}
use csc512_distributed_syste.Cdup.Expr.Parser.{ok, lbp, binop, unop}
use csc512_distributed_syste.Cdup.Expr.Pratt.{
  enough, more_arguments, parse, parse_arguments, parse_tokens,
}
use csc512_distributed_syste.Cdup.Expr.Pratt.Surface.{
  Expr, Exprs, empty, more, number, string, character, var, unary, cast, binary, index, field,
  post_inc, post_dec, level, power, type_tokens, enclosed, shown, shown_all, print, tree, trees,
  IsExpr, AreExprs,
}
use csc512_distributed_syste.Cdup.Expr.Pratt.NoCast.{shown_all-opens, cast_parts-found}
use csc512_distributed_syste.Cdup.Expr.Pratt.Turns.{power_le}
use csc512_distributed_syste.Cdup.Expr.Pratt.Denotations.{
  nud-number, nud-var, nud-cast, nud-unary, led-binary, led-index, led-field, led-call,
  led-call_empty, led-post_inc, led-post_dec,
}
use csc512_distributed_syste.Cdup.Expr.Pratt.Widths.{
  closes, closes_index, closes_argument, ends, index-IsPostfix, call-IsPostfix, inc-IsPostfix,
  dec-IsPostfix, field-IsPostfix, turns, longer_at, type_tokens-longer, shown-longer,
}
use csc512_distributed_syste.Cdup.Expr.Pratt.Places.{
  Shows, level_ge, same_fuel, shown_closed, placed_closed, operated, after_operand,
}

abbrev products : List Text
products = codes "*" ∷ codes "/" ∷ codes "%" ∷ []

product_power : (b : Text) → member b products ≡ true → power b ≡ 100
unfolding all text_beq lbp get get_or
product_power b h = sound (power b) 100 (member-of_all (λ k. power k == 100) b products refl h)

product-binop : (b : Text) → member b products ≡ true → member b (keys binop) ≡ true
unfolding all text_beq binop keys member
product-binop b h = member-of_all (λ k. member k (keys binop)) b products refl h

module _ (is_float : Text → Bool) where
  last_argument :
      (f : ℕ) (e : Expr) (us ts : List Token)
      → parse is_float f 0 us ≡ ok (tree e) (token op (codes ")") ∷ ts)
      → parse_arguments is_float (suc f) us ≡ ok (trees (more e empty)) (token op (codes ")") ∷ ts)
  unfolding parse more_arguments text_beq tree
  last_argument f e us ts h = rw h refl

  next_argument :
      (f : ℕ) (e : Expr) (es : Exprs) (us vs ts : List Token)
      → parse is_float f 0 us ≡ ok (tree e) (token op (codes ",") ∷ vs)
      → parse_arguments is_float f vs ≡ ok (trees es) ts
      → parse_arguments is_float (suc f) us ≡ ok (trees (more e es)) ts
  unfolding parse more_arguments text_beq tree
  next_argument f e es us vs ts h k = rw (h, k) refl

  mutual
    unfolding turns shown tree parse IsExpr level

    shown-Shows : (e : Expr) → IsExpr is_float e → Shows is_float e
    shown-Shows (number t) w f m u us a b c d =
        same_fuel is_float (suc f) (1 + f) m _ _ (omega arith)
          (rw (nud-number is_float (λ bp vs. parse is_float f bp vs) t (u ∷ us) w.1) refl)
    shown-Shows (string t) w f m u us a b c d =
        same_fuel is_float (suc f) (1 + f) m _ _ (omega arith) refl
    shown-Shows (character t) w f m u us a b c d =
        same_fuel is_float (suc f) (1 + f) m _ _ (omega arith) refl
    shown-Shows (var x) w f m u us a b c d =
        same_fuel is_float (suc f) (1 + f) m _ _ (omega arith)
          (rw (nud-var is_float (λ bp vs. parse is_float f bp vs) x (u ∷ us) w.1.0) refl)
    shown-Shows (unary o e) w f m u us a b c d =
        let inner =
          placed_closed is_float e w.1 (shown-Shows e w.1) 100 f 99 u us (omega arith) (omega arith)
            c (omega arith) in
        same_fuel is_float (suc f) (1 + f) m _ _ (omega arith) (
          rw (nud-unary is_float (λ bp vs. parse is_float f bp vs) o _ (u ∷ us) (tree e) w.0 inner)
            refl)
    shown-Shows (cast ps e) w f m u us a b c d =
        let written = enclosed (leb 100 (level e)) (λ vs. shown e vs) (u ∷ us) in
        let long = type_tokens-longer ps (token op (codes ")") ∷ written) in
        let inner =
          placed_closed is_float e w.1.1 (shown-Shows e w.1.1) 100 f 99 u us (omega arith)
            (omega arith) c (omega (arith, long)) in
        same_fuel is_float (suc f) (1 + f) m _ _ (omega arith) (
          rw
            (nud-cast is_float (λ bp vs. parse is_float f bp vs)
              (type_tokens ps (token op (codes ")") ∷ written)) written (u ∷ us) (join_by b' ' ps)
              (tree e) (cast_parts-found ps written w.0 w.1.0) inner)
            refl)
    shown-Shows (binary o l r) w f m u us a b c d =
        let written = enclosed (leb (suc (power o)) (level r)) (λ vs. shown r vs) (u ∷ us) in
        let long = longer_at (leb (power o) (level l)) l (token op o ∷ written) (shown-longer l) in
        let right =
          placed_closed is_float r w.1.1 (shown-Shows r w.1.1) (suc (power o)) f (power o) u us
            (omega arith) (leb→le _ _ (power_le o w.0)) c (omega (arith, long)) in
        operated is_float l w.1.0 (shown-Shows l w.1.0) (power o) f m o written (u ∷ us) _ a
          (omega arith) b d
          (led-binary (λ bp vs. parse is_float f bp vs) (λ vs. parse_arguments is_float f vs)
            (tree l) o written (u ∷ us) (tree r) w.0 right)
    shown-Shows (index l i) w f m u us a b c d =
        let close = token op (codes "]") in
        let written = enclosed (leb 1 (level i)) (λ vs. shown i vs) (close ∷ u ∷ us) in
        let long =
          longer_at (leb 130 (level l)) l (token op (codes "[") ∷ written) (shown-longer l) in
        let inner =
          placed_closed is_float i w.1 (shown-Shows i w.1) 1 f 0 close (u ∷ us) (omega arith)
            (omega arith) closes_index (omega (arith, long)) in
        after_operand is_float l w.0 (shown-Shows l w.0) f m (codes "[") written (u ∷ us) _
          index-IsPostfix b d
          (led-index (λ bp vs. parse is_float f bp vs) (λ vs. parse_arguments is_float f vs)
            (tree l) written (u ∷ us) (tree i) inner)
    shown-Shows (field s l x) w f m u us a b c d =
        after_operand is_float l w.1 (shown-Shows l w.1) f m s (token name x ∷ u ∷ us) (u ∷ us) _
          (field-IsPostfix s w.0) b d
          (led-field (λ bp vs. parse is_float f bp vs) (λ vs. parse_arguments is_float f vs)
            (tree l) s x (u ∷ us) w.0)
    shown-Shows (Expr.call l empty) w f m u us a b c d =
        after_operand is_float l w.0 (shown-Shows l w.0) f m (codes "(")
          (token op (codes ")") ∷ u ∷ us) (u ∷ us) _ call-IsPostfix b d
          (led-call_empty (λ bp vs. parse is_float f bp vs) (λ vs. parse_arguments is_float f vs)
            (tree l) (u ∷ us))
    shown-Shows (Expr.call l (more e es)) w f m u us a b c d =
        let close = token op (codes ")") in
        let written = shown_all (more e es) (close ∷ u ∷ us) in
        let long =
          longer_at (leb 130 (level l)) l (token op (codes "(") ∷ written) (shown-longer l) in
        after_operand is_float l w.0 (shown-Shows l w.0) f m (codes "(") written (u ∷ us) _
          call-IsPostfix b d
          (led-call (λ bp vs. parse is_float f bp vs) (λ vs. parse_arguments is_float f vs) (tree l)
            written (u ∷ us) (trees (more e es))
            (shown_all-opens is_float e es w.1.0 (close ∷ u ∷ us))
            (shown_all-read (more e es) w.1 (λ p. cc) f (u ∷ us) (omega (arith, long))))
    shown-Shows (post_inc l) w f m u us a b c d =
        after_operand is_float l w (shown-Shows l w) f m (codes "++") (u ∷ us) (u ∷ us) _
          inc-IsPostfix b d
          (led-post_inc (λ bp vs. parse is_float f bp vs) (λ vs. parse_arguments is_float f vs)
            (tree l) (u ∷ us))
    shown-Shows (post_dec l) w f m u us a b c d =
        after_operand is_float l w (shown-Shows l w) f m (codes "--") (u ∷ us) (u ∷ us) _
          dec-IsPostfix b d
          (led-post_dec (λ bp vs. parse is_float f bp vs) (λ vs. parse_arguments is_float f vs)
            (tree l) (u ∷ us))

    shown_all-read :
        (args : Exprs)
        → AreExprs is_float args
        → args ≢ empty
        → (f : ℕ) (ts : List Token)
        → 2 * length (shown_all args (token op (codes ")") ∷ ts)) + 1 < f
        → parse_arguments is_float f (shown_all args (token op (codes ")") ∷ ts))
          ≡ ok (trees args) (token op (codes ")") ∷ ts)
    shown_all-read empty w n f ts h = absurd (n refl)
    shown_all-read args w n zero ts h = absurd (omega arith)
    shown_all-read (more e empty) w n (suc f) ts h =
        let close = token op (codes ")") in
        last_argument f e _ ts (
          placed_closed is_float e w.0 (shown-Shows e w.0) 1 f 0 close ts (omega arith)
            (omega arith) closes (omega arith))
    shown_all-read (more e (more d es)) w n (suc f) ts h =
        let close = token op (codes ")") in
        let rest = shown_all (more d es) (close ∷ ts) in
        let long = longer_at (leb 1 (level e)) e (token op (codes ",") ∷ rest) (shown-longer e) in
        next_argument f e (more d es) _ rest (close ∷ ts)
          (placed_closed is_float e w.0 (shown-Shows e w.0) 1 f 0 (token op (codes ",")) rest
            (omega arith) (omega arith) closes_argument (omega arith))
          (shown_all-read (more d es) w.1 (λ p. cc) f ts (omega (arith, long)))

  -- The tokens of an expression, with parentheses only where an operand binds less than its place
  -- asks, are read as the tree of the expression, for every expression that is made of the parser's own
  -- operators, of casts, indexes, fields, calls and literals.
  pub parse_tokens-shown :
      (e : Expr)
      → IsExpr is_float e
      → parse_tokens is_float (shown e (token eof [] ∷ [])) ≡ some (tree e)
  unfolding parse_tokens enough
  parse_tokens-shown e w =
      let ts = shown e (token eof [] ∷ []) in
      rw
        (shown_closed is_float e (shown-Shows e w) (enough ts) 0 (token eof []) []
          (level_ge is_float e w) (omega arith) ends (omega arith))
        refl

  -- A prefix operator before a product takes the whole product as its operand: the tokens of the
  -- operator, of an operand, of `*`, `/` or `%`, and of another operand, the operands in parentheses
  -- where the product asks for them, are read as the operator on the product.
  pub prefix-product :
      (o b : Text) (l r : Expr)
      → member o (keys unop) ≡ true
      → member b (codes "*" ∷ codes "/" ∷ codes "%" ∷ []) ≡ true
      → IsExpr is_float l
      → IsExpr is_float r
      → parse_tokens is_float
          (token op o ∷ print 100 l (token op b ∷ print 101 r (token eof [] ∷ [])))
        ≡ some (tree (unary o (binary b l r)))
  unfolding print IsExpr shown level
  prefix-product o b l r h k v w =
      subst
        (λ n.
          parse_tokens is_float (
            token op o
            ∷ enclosed (leb 100 n)
                (λ us.
                  enclosed (leb n (level l)) (λ vs. shown l vs)
                    (token op b ∷ enclosed (leb (suc n) (level r)) (λ vs. shown r vs) us))
                (token eof [] ∷ []))
          ≡ some (tree (unary o (binary b l r))))
        (product_power b k)
        (parse_tokens-shown (unary o (binary b l r)) (h, (product-binop b k, (v, w))))
