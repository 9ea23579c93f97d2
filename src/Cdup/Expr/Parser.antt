-- ===== src/Cdup/Expr/Parser.antt =====
-- `_Parser` and `parse_expr` of cdup/src/expr.py. An exception of the parser is `failed`; the recursion
-- takes fuel, and `out_of_fuel` says that it ran out. Whether `float` accepts a text is a parameter.
use csc512_distributed_syste.Prelude.{
  ℕ, suc, ◌+◌, ◌-◌, ◌*◌, Bool, true, false, ◌&&◌, ◌||◌, Option, none, some, List, [], ◌∷◌, ◌++◌,
  member, any, all, leb, ◌==◌, nat_eq, if◌then◌else◌,
}
use csc512_distributed_syste.Prelude.Dict.{Dict, get}
use csc512_distributed_syste.Prelude.Text.{Text, codes, text_eq, join_by}
use mathlib.Core.List.{reverse}
use csc512_distributed_syste.Cdup.Ir.{Node, Nodes, Extra, Literal, int, float, nil, cons}
use csc512_distributed_syste.Cdup.Slots.{is_digit, is_number}
use csc512_distributed_syste.Cdup.Expr.Tokens.{num, str, char, name, op, eof, Token}

pub data Result {ℓ} (A : Type ℓ) : Type ℓ where
  ok : A → List Token → Result A
  failed : Result A
  out_of_fuel : Result A

infixl 5 ◌>>=◌
abbrev pub ◌>>=◌ {ℓ κ} :
    {A : Type ℓ} {B : Type κ} → Result A → (A → List Token → Result B) → Result B
ok a ts >>= f = f a ts
failed >>= f = failed
out_of_fuel >>= f = out_of_fuel

-- `_LBP`
unfoldable pub lbp : Dict Text ℕ
lbp =
    (codes "||", 10)
    ∷ (codes "&&", 20)
    ∷ (codes "|", 30)
    ∷ (codes "^", 40)
    ∷ (codes "&", 50)
    ∷ (codes "==", 60)
    ∷ (codes "!=", 60)
    ∷ (codes "<", 70)
    ∷ (codes ">", 70)
    ∷ (codes "<=", 70)
    ∷ (codes ">=", 70)
    ∷ (codes "<<", 80)
    ∷ (codes ">>", 80)
    ∷ (codes "+", 90)
    ∷ (codes "-", 90)
    ∷ (codes "*", 100)
    ∷ (codes "/", 100)
    ∷ (codes "%", 100)
    ∷ (codes "[", 110)
    ∷ (codes ".", 120)
    ∷ (codes "->", 120)
    ∷ (codes "(", 120)
    ∷ (codes "++", 130)
    ∷ (codes "--", 130)
    ∷ []

-- `_BINOP`
unfoldable pub binop : Dict Text Text
binop =
    (codes "+", codes "add")
    ∷ (codes "-", codes "sub")
    ∷ (codes "*", codes "mul")
    ∷ (codes "/", codes "div")
    ∷ (codes "%", codes "mod")
    ∷ (codes "&", codes "bit_and")
    ∷ (codes "|", codes "bit_or")
    ∷ (codes "^", codes "bit_xor")
    ∷ (codes "<<", codes "shl")
    ∷ (codes ">>", codes "shr")
    ∷ (codes "==", codes "cmp_eq")
    ∷ (codes "!=", codes "cmp_ne")
    ∷ (codes "<", codes "cmp_lt")
    ∷ (codes ">", codes "cmp_gt")
    ∷ (codes "<=", codes "cmp_le")
    ∷ (codes ">=", codes "cmp_ge")
    ∷ (codes "&&", codes "log_and")
    ∷ (codes "||", codes "log_or")
    ∷ []

-- `_UNOP`
unfoldable pub unop : Dict Text Text
unop =
    (codes "-", codes "neg")
    ∷ (codes "!", codes "log_not")
    ∷ (codes "~", codes "bit_not")
    ∷ (codes "&", codes "addr_of")
    ∷ (codes "*", codes "deref")
    ∷ (codes "++", codes "pre_inc")
    ∷ (codes "--", codes "pre_dec")
    ∷ []

-- `_CAST_TYPES`
unfoldable pub cast_types : List Text
cast_types =
    codes "int"
    ∷ codes "long"
    ∷ codes "short"
    ∷ codes "char"
    ∷ codes "unsigned"
    ∷ codes "signed"
    ∷ codes "float"
    ∷ codes "double"
    ∷ codes "void"
    ∷ codes "size_t"
    ∷ codes "uint8_t"
    ∷ codes "uint16_t"
    ∷ codes "uint32_t"
    ∷ codes "uint64_t"
    ∷ codes "int8_t"
    ∷ codes "int16_t"
    ∷ codes "int32_t"
    ∷ codes "int64_t"
    ∷ []

abbrev pub plain : Extra
plain = record { field = none; type = none; fn = none; of = none }

abbrev pub one : Node → Nodes
one n = cons n nil

abbrev pub two : Node → Node → Nodes
two m n = cons m (cons n nil)

-- `int(s, 0)` and what is done when it fails: decimal digits, also after leading zeros, digits after 0x
-- or 0b, and 0 for any other text.
unfoldable pub digit_value : ℕ → ℕ
digit_value c = if is_digit c then c - b'0' else if leb b'a' c then c - b'a' + 10 else c - b'A' + 10

unfoldable pub number_in : ℕ → ℕ → Text → ℕ
unfolding digit_value
number_in base n [] = n
number_in base n (c ∷ s) = number_in base (base * n + digit_value c) s

unfoldable pub is_hex : ℕ → Bool
is_hex c = is_digit c || (leb b'a' c && leb c b'f' || leb b'A' c && leb c b'F')

abbrev pub is_bit : ℕ → Bool
is_bit c = c == b'0' || c == b'1'

unfoldable pub prefixed_value : Text → ℕ
unfolding number_in is_hex
prefixed_value (z ∷ x ∷ d ∷ s) =
    if z == b'0'
    then (if x == b'x' || x == b'X'
        then (if all is_hex (d ∷ s) then number_in 16 0 (d ∷ s) else 0)
        else if x == b'b' || x == b'B'
        then (if all is_bit (d ∷ s) then number_in 2 0 (d ∷ s) else 0)
        else 0)
    else 0
prefixed_value s = 0

unfoldable pub int_value : Text → ℕ
unfolding number_in prefixed_value
int_value s = if is_number s then number_in 10 0 s else prefixed_value s

unfoldable pub drop_while : (ℕ → Bool) → Text → Text
drop_while p [] = []
drop_while p (c ∷ s) = let rest = drop_while p s in if p c then rest else c ∷ s

-- `re.sub(r'[uUlL]+$', '', tv)`
unfoldable pub strip_suffix : Text → Text
unfolding drop_while
strip_suffix s = reverse (drop_while (λ c. member c (codes "uUlL")) (reverse s))

unfoldable pub is_float_text : Text → Bool
is_float_text = any (λ c. c == b'.' || (c == b'e' || c == b'E'))

-- `_try_parse_cast_type`: the parts of the type before a `)`, and the tokens after it.
unfoldable pub cast_parts : List Text → List Token → Option (Text × List Token)
unfolding cast_types
cast_parts parts [] = none
cast_parts parts (t ∷ ts) =
    let more = cast_parts (parts ++ t.text ∷ []) ts in
    elim t.kind [
      | name ↦ if member t.text cast_types then more else none
      | op ↦
          if t.text == codes "*"
          then more
          else if t.text == codes ")"
          then elim parts [ [] ↦ none | p ∷ ps ↦ some (join_by b' ' (p ∷ ps), ts) ]
          else none
      | _ ↦ none
    ]

-- `_expect`
unfoldable pub expect : Text → List Token → Result (Unit {0})
expect v [] = failed
expect v (t ∷ ts) = if t.text == v then ok tt ts else failed

-- The tokens of `sizeof (…)` up to the closing parenthesis; the end of the text ends them as well.
unfoldable pub sizeof_texts : ℕ → List Token → List Text × List Token
sizeof_texts depth [] = ([], [])
sizeof_texts depth (t ∷ ts) =
    let deeper = sizeof_texts (suc depth) ts in
    let same = sizeof_texts depth ts in
    let higher = sizeof_texts (depth - 1) ts in
    elim t.kind [
      | eof ↦ ([], t ∷ ts)
      | _ ↦ elim (t.text == codes "(") [
        | true ↦ (t.text ∷ deeper.0, deeper.1)
        | false ↦ elim (t.text == codes ")") [
          | true ↦ if depth == 1 then ([], ts) else (t.text ∷ higher.0, higher.1)
          | false ↦ (t.text ∷ same.0, same.1)
        ]
      ]
    ]

unfoldable pub sizeof_opaque : List Token → Result Node
unfolding sizeof_texts
sizeof_opaque ts =
    let inner = sizeof_texts 1 ts in
    ok (Node.op (codes "sizeof") (record plain { of = some (join_by b' ' inner.0) }) nil) inner.1

abbrev pub next_is : Text → List Token → Bool
next_is v [] = false
next_is v (t ∷ ts) = t.text == v

module _ (is_float : Text → Bool) where
  unfoldable pub number_node : Text → List Token → Result Node
  unfolding int_value strip_suffix is_float_text
  number_node t ts =
      if is_float_text t
      then (if is_float t then ok (Node.const (float t)) ts else failed)
      else ok (Node.const (int (int_value (strip_suffix t)))) ts

  -- `_nud`, where `parse` is the parser.
  unfoldable pub nud : (ℕ → List Token → Result Node) → List Token → Result Node
  unfolding number_node cast_parts expect sizeof_opaque unop
  nud parse [] = failed
  nud parse (t ∷ ts) = elim t.kind [
    | num ↦ number_node t.text ts
    | str ↦ ok (Node.const (Literal.string t.text)) ts
    | char ↦ ok (Node.const (Literal.char t.text)) ts
    | name ↦
        if t.text == codes "sizeof"
        then (elim ts [
          | [] ↦ failed
          | u ∷ us ↦
              if u.text == codes "("
              then sizeof_opaque us
              else (parse 100 (u ∷ us) >>= λ inner rest.
                  ok (Node.op (codes "sizeof") plain (one inner)) rest)
        ])
        else ok (Node.name t.text) ts
    | op ↦
        if t.text == codes "("
        then (elim (cast_parts [] ts) [
          | some found ↦ parse 99 found.1 >>= λ operand rest.
              ok (Node.op (codes "cast") (record plain { type = some found.0 }) (one operand)) rest
          | none ↦
              parse 0 ts >>= λ inner rest. expect (codes ")") rest >>= λ u after. ok inner after
        ])
        else elim (get t.text unop) [
          | some o ↦ parse 99 ts >>= λ operand rest. ok (Node.op o plain (one operand)) rest
          | none ↦ failed
        ]
    | eof ↦ failed
  ]
