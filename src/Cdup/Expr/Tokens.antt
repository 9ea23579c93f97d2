-- ===== src/Cdup/Expr/Tokens.antt =====
-- `_tokenize` of cdup/src/expr.py.
pub mod Lossless
use csc512_distributed_syste.Prelude.{
  ℕ, zero, suc, Bool, true, false, ◌&&◌, ◌||◌, List, [], ◌∷◌, ◌++◌, member, length, leb, ◌==◌,
  nat_eq, if◌then◌else◌,
}
use csc512_distributed_syste.Prelude.Text.{Text, codes, text_eq}
use csc512_distributed_syste.Cdup.Slots.{is_alpha, is_digit, is_word}

pub data TokenKind : Type 0 where
  num str char name op eof : TokenKind

pub record Token : Type 0 where
  pub kind : TokenKind
  pub text : Text

abbrev pub token : TokenKind → Text → Token
token k t = record { kind = k; text = t }

-- What `_TWO_CHAR_OPS` holds.
unfoldable pub two_char_ops : List Text
two_char_ops =
    codes "->"
    ∷ codes "++"
    ∷ codes "--"
    ∷ codes "<<"
    ∷ codes ">>"
    ∷ codes "<="
    ∷ codes ">="
    ∷ codes "=="
    ∷ codes "!="
    ∷ codes "&&"
    ∷ codes "||"
    ∷ codes "+="
    ∷ codes "-="
    ∷ codes "*="
    ∷ codes "/="
    ∷ codes "%="
    ∷ codes "&="
    ∷ codes "|="
    ∷ codes "^="
    ∷ []

unfoldable pub is_blank_code : ℕ → Bool
is_blank_code c = c == b' ' || (c == 9 || (c == 13 || c == 10))

-- The rest of a literal up to its closing quote, and what follows it. A backslash takes the next
-- character along.
unfoldable pub quoted : ℕ → Text → Text × Text
quoted q [] = ([], [])
quoted q (c ∷ []) = (c ∷ [], [])
quoted q (c ∷ d ∷ s) =
    let escaped = quoted q s in
    let plain = quoted q (d ∷ s) in
    elim (c == b'\\') [
      | true ↦ (c ∷ d ∷ escaped.0, escaped.1)
      | false ↦ elim (c == q) [ true ↦ (c ∷ [], d ∷ s) | false ↦ (c ∷ plain.0, plain.1) ]
    ]

-- The longest start of a text whose characters pass the test, and the rest.
unfoldable pub span : (ℕ → Bool) → Text → Text × Text
span p [] = ([], [])
span p (c ∷ s) = let more = span p s in if p c then (c ∷ more.0, more.1) else ([], c ∷ s)

unfoldable pub is_number_code : ℕ → Bool
unfolding is_digit
is_number_code c = is_digit c || member c (codes ".eExXabcdefABCDEFuUlL")

-- `c == '.'`, and a digit follows
unfoldable pub starts_fraction : ℕ → Text → Bool
unfolding is_digit
starts_fraction c [] = false
starts_fraction c (d ∷ s) = c == b'.' && is_digit d

abbrev pub with_kind : TokenKind → Text × Text → Token × Text
with_kind k p = (token k p.0, p.1)

abbrev pub after : ℕ → Text × Text → Text × Text
after c p = (c ∷ p.0, p.1)

unfoldable pub operator_token : ℕ → Text → Token × Text
unfolding two_char_ops
operator_token c [] = (token op (c ∷ []), [])
operator_token c (d ∷ s) =
    if member (c ∷ d ∷ []) two_char_ops
    then (token op (c ∷ d ∷ []), s)
    else (token op (c ∷ []), d ∷ s)

-- The token that begins with the character `c`, which is not blank, and the rest of the text.
unfoldable pub next_token : ℕ → Text → Token × Text
unfolding quoted span is_number_code starts_fraction operator_token
next_token c s =
    if c == b'"'
    then with_kind str (after c (quoted c s))
    else if c == b'\''
    then with_kind char (after c (quoted c s))
    else if is_digit c || starts_fraction c s
    then with_kind num (span is_number_code (c ∷ s))
    else if is_alpha c
    then with_kind name (span is_word (c ∷ s))
    else operator_token c s

-- Each turn takes one character at least: fuel for each character is enough.
unfoldable pub tokenize_loop : ℕ → Text → List Token
unfolding next_token is_blank_code
tokenize_loop fuel [] = token eof [] ∷ []
tokenize_loop zero (c ∷ s) = []
tokenize_loop (suc fuel) (c ∷ s) =
    let next = next_token c s in
    let rest = tokenize_loop fuel (if is_blank_code c then s else next.1) in
    if is_blank_code c then rest else next.0 ∷ rest

unfoldable pub tokenize : Text → List Token
unfolding tokenize_loop
tokenize src = tokenize_loop (length src) src
