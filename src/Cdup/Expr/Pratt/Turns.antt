-- ===== src/Cdup/Expr/Pratt/Turns.antt =====
-- One turn of the parser's loop of cdup/src/expr.py, on the tokens of operators.
use csc512_distributed_syste.Prelude.{
  ℕ, suc, ◌≤◌, ◌<◌, ◌≡◌, refl, Bool, true, false, List, [], ◌∷◌, all, member, member-of_all, leb,
  le→leb, arith,
}
use csc512_distributed_syste.Prelude.Dict.{Dict, get, get_or, keys}
use csc512_distributed_syste.Prelude.Text.{Text, text_eq, text_beq}
use mathlib.Core.Option.{some}
use csc512_distributed_syste.Cdup.Ir.{Node}
use csc512_distributed_syste.Cdup.Expr.Tokens.{
  TokenKind, num, str, char, name, op, eof, Token, token,
}
use csc512_distributed_syste.Cdup.Expr.Parser.{ok, ◌>>=◌, lbp, binop}
use csc512_distributed_syste.Cdup.Expr.Pratt.{stops, led, parse, parse_loop, parse_arguments}
use csc512_distributed_syste.Cdup.Expr.Pratt.Surface.{power}

-- What is listed is got.
pub get-listed :
    (o : Text) (w : Text) (d : Dict Text Text)
    → member o (keys d) ≡ true
    → get o d ≡ some (get_or o w d)
unfolding get get_or keys member
get-listed o w [] h = cc
get-listed o w ((k, v) ∷ d) h = ground (arith, get-listed o w d)

pub power_le : (o : Text) → member o (keys binop) ≡ true → leb (power o) 100 ≡ true
unfolding binop keys all text_beq lbp get get_or
power_le o h = member-of_all (λ k. leb (power k) 100) o (keys binop) refl h

pub power_ge : (o : Text) → member o (keys binop) ≡ true → leb 1 (power o) ≡ true
unfolding binop keys all text_beq lbp get get_or
power_ge o h = member-of_all (λ k. leb 1 (power k)) o (keys binop) refl h

pub stops-power : (min_bp : ℕ) (t : Token) → power t.text ≤ min_bp → stops min_bp t ≡ true
unfolding stops
stops-power min_bp t h = at_kind min_bp t.kind t.text h
  where
    at_kind : (m : ℕ) (k : TokenKind) (x : Text) → power x ≤ m → stops m (token k x) ≡ true
    at_kind m eof x h = refl
    at_kind m num x h = le→leb _ _ h
    at_kind m str x h = le→leb _ _ h
    at_kind m char x h = le→leb _ _ h
    at_kind m name x h = le→leb _ _ h
    at_kind m op x h = le→leb _ _ h

module _ (is_float : Text → Bool) where
  pub stop :
      (f min_bp : ℕ) (left : Node) (t : Token) (ts : List Token)
      → power t.text ≤ min_bp
      → parse_loop is_float (suc f) min_bp left (t ∷ ts) ≡ ok left (t ∷ ts)
  unfolding parse_loop
  stop f min_bp left t ts h = rw (parse_loop, stops-power min_bp t h) refl

  pub turn :
      (f min_bp : ℕ) (left : Node) (o : Text) (ts : List Token)
      → min_bp < power o
      → parse_loop is_float (suc f) min_bp left (token op o ∷ ts) ≡ (
          led
            (λ bp us. parse is_float f bp us)
            (λ us. parse_arguments is_float f us)
            left
            (token op o ∷ ts)
          >>= λ more rest. parse_loop is_float f min_bp more rest)
  unfolding parse_loop stops
  turn f min_bp left o ts h =
      let goes : leb (power o) min_bp ≡ false = ground (arith, h) in rw (parse_loop, goes) refl
