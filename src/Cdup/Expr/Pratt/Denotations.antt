-- ===== src/Cdup/Expr/Pratt/Denotations.antt =====
-- `_nud` and `_led` of cdup/src/expr.py on each kind of token, given what the parser reads after it.
use csc512_distributed_syste.Prelude.{
  ℕ, ◌≡◌, refl, sym, Bool, true, false, not, ◌||◌, List, [], ◌∷◌, all, member, member-of_all,
  or_true, sound, subst, ◌==◌, if◌then◌else◌, arith, inl, inr,
}
use csc512_distributed_syste.Prelude.Dict.{get, get_or, keys}
use csc512_distributed_syste.Prelude.Text.{Text, codes, text_eq, text_beq}
use mathlib.Core.Option.{some, none}
use csc512_distributed_syste.Cdup.Ir.{Node, Nodes, int, float, nil}
use csc512_distributed_syste.Cdup.Expr.Tokens.{num, name, op, Token, token}
use csc512_distributed_syste.Cdup.Expr.Parser.{
  Result, ok, binop, unop, plain, one, two, cast_parts, expect, number_node, is_float_text,
  int_value, strip_suffix, nud,
}
use csc512_distributed_syste.Cdup.Expr.Pratt.{callee, field_access, call, led}
use csc512_distributed_syste.Cdup.Expr.Pratt.Surface.{power}
use csc512_distributed_syste.Cdup.Expr.Pratt.NoCast.{opens}
use csc512_distributed_syste.Cdup.Expr.Pratt.Turns.{get-listed}

module _ (is_float : Text → Bool) (p : ℕ → List Token → Result Node) where
  pub nud-number :
      (t : Text) (ts : List Token)
      → not (is_float_text t) || is_float t ≡ true
      → nud is_float p (token num t ∷ ts)
        ≡ ok
            (if is_float_text t
              then Node.const (float t)
              else Node.const (int (int_value (strip_suffix t))))
            ts
  unfolding nud number_node
  nud-number t ts h = ground (arith, h)

  pub nud-var :
      (x : Text) (ts : List Token)
      → x == codes "sizeof" ≡ false
      → nud is_float p (token name x ∷ ts) ≡ ok (Node.name x) ts
  unfolding nud
  nud-var x ts h = rw h refl

  pub nud-parens :
      (ts rest : List Token) (inner : Node)
      → cast_parts [] ts ≡ none
      → p 0 ts ≡ ok inner (token op (codes ")") ∷ rest)
      → nud is_float p (token op (codes "(") ∷ ts) ≡ ok inner rest
  unfolding nud text_beq expect
  nud-parens ts rest inner h k = rw (h, k) refl

  pub nud-cast :
      (ts us rest : List Token) (type : Text) (operand : Node)
      → cast_parts [] ts ≡ some (type, us)
      → p 99 us ≡ ok operand rest
      → nud is_float p (token op (codes "(") ∷ ts)
        ≡ ok (Node.op (codes "cast") (record plain { type = some type }) (one operand)) rest
  unfolding nud text_beq
  nud-cast ts us rest type operand h k = rw (h, k) refl

  unop_open : (o : Text) → member o (keys unop) ≡ true → not (o == codes "(") ≡ true
  unfolding unop keys all text_beq
  unop_open o h = member-of_all (λ k. not (k == codes "(")) o (keys unop) refl h

  pub nud-unary :
      (o : Text) (ts rest : List Token) (operand : Node)
      → member o (keys unop) ≡ true
      → p 99 ts ≡ ok operand rest
      → nud is_float p (token op o ∷ ts) ≡ ok (Node.op (get_or o [] unop) plain (one operand)) rest
  unfolding nud
  nud-unary o ts rest operand h k =
      let closed : o == codes "(" ≡ false = ground (arith, unop_open o h) in
      rw (closed, get-listed o [] unop h, k) refl

module _ (p : ℕ → List Token → Result Node) (q : List Token → Result Nodes) (left : Node) where
  pub led-binary :
      (o : Text) (ts rest : List Token) (right : Node)
      → member o (keys binop) ≡ true
      → p (power o) ts ≡ ok right rest
      → led p q left (token op o ∷ ts)
        ≡ ok (Node.op (get_or o [] binop) plain (two left right)) rest
  unfolding led get get_or text_beq
  led-binary o ts rest right h k = rw (get-listed o [] binop h, k) refl

  pub led-index :
      (ts rest : List Token) (i : Node)
      → p 0 ts ≡ ok i (token op (codes "]") ∷ rest)
      → led p q left (token op (codes "[") ∷ ts)
        ≡ ok (Node.op (codes "index") plain (two left i)) rest
  unfolding led binop get text_beq expect
  led-index ts rest i k = rw k refl

  abbrev Accesses : Text → Text → List Token → Type 0
  Accesses x s ts =
      led p q left (token op s ∷ token name x ∷ ts)
      ≡ ok (Node.op (codes "field") (record plain { field = some x }) (one left)) ts

  dot-Accesses : (x : Text) (ts : List Token) → Accesses x (codes ".") ts
  unfolding led binop get text_beq field_access
  dot-Accesses x ts = refl

  arrow-Accesses : (x : Text) (ts : List Token) → Accesses x (codes "->") ts
  unfolding led binop get text_beq field_access
  arrow-Accesses x ts = refl

  pub led-field :
      (s x : Text) (ts : List Token)
      → s == codes "." || s == codes "->" ≡ true
      → led p q left (token op s ∷ token name x ∷ ts)
        ≡ ok (Node.op (codes "field") (record plain { field = some x }) (one left)) ts
  led-field s x ts h = elim (or_true (s == codes ".") (s == codes "->") h) [
    | inl e ↦ subst (λ v. Accesses x v ts) (sym (sound s (codes ".") e)) (dot-Accesses x ts)
    | inr e ↦ subst (λ v. Accesses x v ts) (sym (sound s (codes "->") e)) (arrow-Accesses x ts)
  ]

  pub led-call_empty :
      (ts : List Token)
      → led p q left (token op (codes "(") ∷ token op (codes ")") ∷ ts)
        ≡ ok (Node.op (codes "call") (record plain { fn = some (callee left) }) nil) ts
  unfolding led binop get text_beq call expect
  led-call_empty ts = refl

  pub led-call :
      (ts rest : List Token) (args : Nodes)
      → opens ts ≡ true
      → q ts ≡ ok args (token op (codes ")") ∷ rest)
      → led p q left (token op (codes "(") ∷ ts)
        ≡ ok (Node.op (codes "call") (record plain { fn = some (callee left) }) args) rest
  unfolding led binop get text_beq call expect opens
  led-call [] rest args h k = cc
  led-call (t ∷ ts) rest args h k =
      let e : t.text == codes ")" ≡ false = ground (arith, h) in rw (e, k) refl

  pub led-post_inc :
      (ts : List Token)
      → led p q left (token op (codes "++") ∷ ts)
        ≡ ok (Node.op (codes "post_inc") plain (one left)) ts
  unfolding led binop get text_beq
  led-post_inc ts = refl

  pub led-post_dec :
      (ts : List Token)
      → led p q left (token op (codes "--") ∷ ts)
        ≡ ok (Node.op (codes "post_dec") plain (one left)) ts
  unfolding led binop get text_beq
  led-post_dec ts = refl
