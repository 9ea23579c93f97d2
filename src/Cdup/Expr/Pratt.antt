-- ===== src/Cdup/Expr/Pratt.antt =====
-- The loop of the parser and the functions of cdup/src/expr.py that call it. Each call of the
-- recursion takes one of the fuel.
pub mod Finishes
pub mod Surface
pub mod NoCast
pub mod Turns
pub mod Denotations
pub mod Widths
pub mod Places
pub mod RoundTrip
use csc512_distributed_syste.Prelude.{
  ℕ, zero, suc, ◌+◌, ◌*◌, Bool, true, false, Option, none, some, List, [], ◌∷◌, ◌++◌, member,
  length, leb, ◌==◌, nat_eq, ◌||◌, not, if◌then◌else◌,
}
use csc512_distributed_syste.Prelude.Dict.{Dict, get, get_or}
use csc512_distributed_syste.Prelude.Text.{Text, codes, text_eq, strip}
use mathlib.Core.List.{reverse}
use csc512_distributed_syste.Cdup.Ir.{Node, Nodes, nil, cons}
use csc512_distributed_syste.Cdup.Expr.Tokens.{
  TokenKind, num, str, char, name, op, eof, Token, token, span, tokenize,
}
use csc512_distributed_syste.Cdup.Expr.Parser.{
  Result, ok, failed, out_of_fuel, ◌>>=◌, lbp, binop, plain, one, two, expect, nud, drop_while,
}

-- `left.get("name", "unknown")`
unfoldable pub callee : Node → Text
callee (Node.name x) = x
callee _ = codes "unknown"

-- After a `.` or `->`.
unfoldable pub field_access : Node → List Token → Result Node
field_access left [] = failed
field_access left (t ∷ ts) = elim t.kind [
  | name ↦ ok (Node.op (codes "field") (record plain { field = some t.text }) (one left)) ts
  | _ ↦ failed
]

-- After the `(` of a call.
unfoldable pub call : (List Token → Result Nodes) → Node → List Token → Result Node
unfolding expect callee
call arguments left [] = failed
call arguments left (t ∷ ts) =
    (if t.text == codes ")" then ok nil (t ∷ ts) else arguments (t ∷ ts)) >>= λ args rest.
    expect (codes ")") rest >>= λ v after.
    ok (Node.op (codes "call") (record plain { fn = some (callee left) }) args) after

-- `_led`, where `parse` is the parser, and `arguments` reads the arguments of a call.
unfoldable pub led :
    (ℕ → List Token → Result Node) → (List Token → Result Nodes) → Node → List Token → Result Node
unfolding binop lbp expect field_access call
led parse arguments left [] = failed
led parse arguments left (t ∷ ts) = elim (get t.text binop) [
  | some o ↦
      parse (get_or t.text 0 lbp) ts >>= λ right rest. ok (Node.op o plain (two left right)) rest
  | none ↦
      if t.text == codes "["
      then (parse 0 ts >>= λ idx rest. expect (codes "]") rest >>= λ u after.
          ok (Node.op (codes "index") plain (two left idx)) after)
      else if t.text == codes "." || t.text == codes "->"
      then field_access left ts
      else if t.text == codes "("
      then call arguments left ts
      else if t.text == codes "++"
      then ok (Node.op (codes "post_inc") plain (one left)) ts
      else if t.text == codes "--"
      then ok (Node.op (codes "post_dec") plain (one left)) ts
      else failed
]

-- What follows an argument, where `arguments` reads the next ones.
unfoldable pub more_arguments : (List Token → Result Nodes) → Node → List Token → Result Nodes
more_arguments arguments arg [] = failed
more_arguments arguments arg (t ∷ ts) = elim (t.text == codes ",") [
  | true ↦ arguments ts >>= λ args rest. ok (cons arg args) rest
  | false ↦ ok (cons arg nil) (t ∷ ts)
]

-- Fuel that is enough for a list of tokens.
unfoldable pub enough : List Token → ℕ
enough ts = 3 * length ts + 2

-- Whether the loop breaks at a token.
unfoldable pub stops : ℕ → Token → Bool
unfolding lbp
stops min_bp t = elim t.kind [ eof ↦ true | _ ↦ leb (get_or t.text 0 lbp) min_bp ]

module _ (is_float : Text → Bool) where
  unfoldable mutual
    unfolding nud led stops more_arguments

    -- `parse`
    pub parse : ℕ → ℕ → List Token → Result Node
    parse zero min_bp ts = out_of_fuel
    parse (suc f) min_bp ts =
        nud is_float (λ bp us. parse f bp us) ts >>= λ left rest. parse_loop f min_bp left rest

    -- Its loop.
    pub parse_loop : ℕ → ℕ → Node → List Token → Result Node
    parse_loop zero min_bp left ts = out_of_fuel
    parse_loop (suc f) min_bp left [] = failed
    parse_loop (suc f) min_bp left (t ∷ ts) = elim (stops min_bp t) [
      | true ↦ ok left (t ∷ ts)
      | false ↦
          led (λ bp us. parse f bp us) (λ us. parse_arguments f us) left (t ∷ ts) >>= λ more rest.
          parse_loop f min_bp more rest
    ]

    -- The arguments of a call, one at least.
    pub parse_arguments : ℕ → List Token → Result Nodes
    parse_arguments zero ts = out_of_fuel
    parse_arguments (suc f) ts =
        parse f 0 ts >>= λ arg rest. more_arguments (λ us. parse_arguments f us) arg rest

  abbrev pub whole : Result Node → Option Node
  whole (ok tree (t ∷ ts)) = elim t.kind [ eof ↦ some tree | _ ↦ none ]
  whole _ = none

  -- `parse_expr`
  unfoldable pub parse_tokens : List Token → Option Node
  unfolding parse enough
  parse_tokens ts = whole (parse (enough ts) 0 ts)

  unfoldable pub trimmed : Text → Text
  unfolding drop_while
  trimmed src = strip (reverse (drop_while (λ c. c == b';') (reverse (strip src))))

  unfoldable pub parse_expr : Text → Option Node
  unfolding parse_tokens trimmed tokenize
  parse_expr src = elim (trimmed src) [ [] ↦ none | c ∷ s ↦ parse_tokens (tokenize (c ∷ s)) ]

-- `_COMPOUND_TO_OP`
unfoldable pub compound_to_op : Dict Text Text
compound_to_op =
    (codes "+=", codes "add")
    ∷ (codes "-=", codes "sub")
    ∷ (codes "*=", codes "mul")
    ∷ (codes "/=", codes "div")
    ∷ (codes "%=", codes "mod")
    ∷ (codes "&=", codes "bit_and")
    ∷ (codes "|=", codes "bit_or")
    ∷ (codes "^=", codes "bit_xor")
    ∷ (codes "<<=", codes "shl")
    ∷ (codes ">>=", codes "shr")
    ∷ []

-- The node of the assigned name: a field of what stands before the first dot, or the name.
unfoldable pub assigned : Text → Node
unfolding span
assigned l_name =
    let cut = span (λ c. not (c == b'.')) l_name in
    elim cut.1 [
      | [] ↦ Node.name l_name
      | d ∷ field ↦
          Node.op (codes "field") (record plain { field = some field }) (one (Node.name cut.0))
    ]

-- `build_assign_expr`
unfoldable pub build_assign_expr : (Text → Bool) → Text → Text → Text → Option Node
unfolding parse_expr compound_to_op assigned
build_assign_expr is_float l_name op_token rhs_src = elim (parse_expr is_float rhs_src) [
  | none ↦ none
  | some rhs ↦ if op_token == codes "=" then some rhs else elim (get op_token compound_to_op) [
    | none ↦ some rhs
    | some o ↦ some (Node.op o plain (two (assigned l_name) rhs))
  ]
]
