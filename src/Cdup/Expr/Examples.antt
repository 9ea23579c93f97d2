-- ===== src/Cdup/Expr/Examples.antt =====
-- The theorems about expressions of cdup/src/expr.py at concrete texts.
use csc512_distributed_syste.Prelude.{◌≡◌, refl, Bool, true, List, [], ◌∷◌, any, member, length}
use csc512_distributed_syste.Prelude.Dict.{keys}
use csc512_distributed_syste.Prelude.Text.{Text, codes, text_eq, text_beq}
use mathlib.Core.Option.{some}
use csc512_distributed_syste.Cdup.Expr.Tokens.{op, eof, name, Token, token, tokenize}
use csc512_distributed_syste.Cdup.Expr.Tokens.Lossless.{Spaced, tokenize-Spaced}
use csc512_distributed_syste.Cdup.Expr.Parser.{unop, binop, cast_types, is_float_text}
use csc512_distributed_syste.Cdup.Expr.Pratt.{parse, parse_tokens, enough}
use csc512_distributed_syste.Cdup.Expr.Pratt.Finishes.{Within, parse-Within}
use csc512_distributed_syste.Cdup.Expr.Pratt.Surface.{
  Expr, var, number, unary, cast, binary, index, call, empty, more, shown, print, tree, IsExpr,
}
use csc512_distributed_syste.Cdup.Expr.Pratt.RoundTrip.{parse_tokens-shown, prefix-product}

abbrev any_float : Text → Bool
any_float s = true

tokenize-Spaced_example : Spaced (tokenize (codes "a <= f(10)")) (codes "a <= f(10)")
tokenize-Spaced_example = tokenize-Spaced (codes "a <= f(10)")

abbrev sum_tokens : List Token
sum_tokens =
    token name (codes "a") ∷ token op (codes "+") ∷ token name (codes "b") ∷ token eof [] ∷ []

parse-Within_example : Within (length sum_tokens) (parse any_float (enough sum_tokens) 0 sum_tokens)
parse-Within_example = parse-Within any_float 0 sum_tokens

-- (a + b[1]) * f((int) c, -d)
abbrev a_product : Expr
a_product =
    binary (codes "*")
      (binary (codes "+") (var (codes "a")) (index (var (codes "b")) (number (codes "1"))))
      (call (var (codes "f")) (
        more (cast (codes "int" ∷ []) (var (codes "c")))
          (more (unary (codes "-") (var (codes "d"))) empty)))

a_product-IsExpr : IsExpr any_float a_product
unfolding IsExpr is_float_text any cast_types unop binop keys member text_beq
a_product-IsExpr = (
  refl,
  (
    (refl, ((refl, (refl, refl)), ((refl, (refl, refl)), (refl, refl)))),
    (
      (refl, (refl, refl)),
      ((λ p. cc, ((refl, tt), (refl, (refl, refl)))), ((refl, (refl, (refl, refl))), tt)),
    ),
  ),
)

parse_tokens-shown_example :
    parse_tokens any_float (shown a_product (token eof [] ∷ [])) ≡ some (tree a_product)
parse_tokens-shown_example = parse_tokens-shown any_float a_product a_product-IsExpr

prefix-product_example :
    parse_tokens any_float (
      token op (codes "*")
      ∷ print 100
          (var (codes "p"))
          (token op (codes "*") ∷ print 101 (var (codes "x")) (token eof [] ∷ [])))
    ≡ some (tree (unary (codes "*") (binary (codes "*") (var (codes "p")) (var (codes "x")))))
unfolding IsExpr cast_types unop keys member text_beq
prefix-product_example =
    prefix-product any_float (codes "*") (codes "*") (var (codes "p")) (var (codes "x")) refl refl
      (refl, (refl, refl)) (refl, (refl, refl))
