-- ===== src/Cdup/Clones/Normalize.antt =====
-- `_normalize_stmt`, `_tokenize` and `_normalize_stmt_type2` of cdup/src/detect.py, on ASCII text.
pub mod Renaming
use csc512_distributed_syste.Prelude.{
  ℕ, zero, suc, Bool, true, false, ◌&&◌, ◌||◌, not, Option, none, some, List, [], ◌∷◌, ◌++◌, all,
  member, select, length, ◌==◌, nat_eq, if◌then◌else◌,
}
use csc512_distributed_syste.Prelude.Dict.{Dict, get}
use csc512_distributed_syste.Prelude.Text.{
  Text, codes, text_eq, is_space, lower, decimal, add_to_first, join_by,
}
use csc512_distributed_syste.Cdup.Slots.{is_alpha, is_digit, is_word, is_identifier, is_number}
use csc512_distributed_syste.Cdup.Expr.Tokens.{span}

-- stmt.split()
unfoldable pub split_spaces : Text → List Text
unfolding is_space add_to_first
split_spaces [] = [] ∷ []
split_spaces (c ∷ s) =
    let rest = split_spaces s in if is_space c then [] ∷ rest else add_to_first c rest

abbrev pub is_filled : Text → Bool
is_filled [] = false
is_filled (c ∷ s) = true

-- `_normalize_stmt`
unfoldable pub normalize_stmt : Text → Text
unfolding split_spaces lower
normalize_stmt stmt = lower (join_by b' ' (select is_filled (split_spaces stmt)))

-- The rest of a string literal after its opening quote, and what follows; `none` if it is not closed.
unfoldable pub closed_string : Text → Option (Text × Text)
closed_string [] = none
closed_string (c ∷ []) = if c == b'"' then some (c ∷ [], []) else none
closed_string (c ∷ d ∷ s) =
    let escaped = closed_string s in
    let more = closed_string (d ∷ s) in
    if c == b'"'
    then some (c ∷ [], d ∷ s)
    else if c == b'\\'
    then (if d == 10 then none else elim escaped [ none ↦ none | some p ↦ some (c ∷ d ∷ p.0, p.1) ])
    else elim more [ none ↦ none | some p ↦ some (c ∷ p.0, p.1) ]

-- `\d+\.\d+|\d+`, at a digit
unfoldable pub number_token : Text → Text × Text
unfolding span
number_token s =
    let whole = span is_digit s in
    elim whole.1 [
      | [] ↦ whole
      | c ∷ rest ↦
          let part = span is_digit rest in
          if c == b'.' && is_filled part.0 then (whole.0 ++ c ∷ part.0, part.1) else whole
    ]

-- The token at a character that is no white space, and the rest of the text.
unfoldable pub token_at : ℕ → Text → Text × Text
unfolding closed_string number_token span
token_at c s =
    if c == b'"'
    then elim (closed_string s) [ none ↦ (c ∷ [], s) | some p ↦ (c ∷ p.0, p.1) ]
    else if is_alpha c
    then span is_word (c ∷ s)
    else if is_digit c
    then number_token (c ∷ s)
    else (c ∷ [], s)

-- `findall`: each turn takes one character at least.
unfoldable pub find_tokens : ℕ → Text → List Text
unfolding token_at is_space
find_tokens fuel [] = []
find_tokens zero (c ∷ s) = []
find_tokens (suc fuel) (c ∷ s) =
    let next = token_at c s in
    let rest = find_tokens fuel (if is_space c then s else next.1) in
    if is_space c then rest else next.0 ∷ rest

-- `_tokenize`
unfoldable pub clone_tokens : Text → List Text
unfolding find_tokens
clone_tokens stmt = find_tokens (length stmt) stmt

-- `_C_KEYWORDS`
unfoldable pub c_keywords : List Text
c_keywords =
    codes "auto"
    ∷ codes "break"
    ∷ codes "case"
    ∷ codes "char"
    ∷ codes "const"
    ∷ codes "continue"
    ∷ codes "default"
    ∷ codes "do"
    ∷ codes "double"
    ∷ codes "else"
    ∷ codes "enum"
    ∷ codes "extern"
    ∷ codes "float"
    ∷ codes "for"
    ∷ codes "goto"
    ∷ codes "if"
    ∷ codes "inline"
    ∷ codes "int"
    ∷ codes "long"
    ∷ codes "register"
    ∷ codes "restrict"
    ∷ codes "return"
    ∷ codes "short"
    ∷ codes "signed"
    ∷ codes "sizeof"
    ∷ codes "static"
    ∷ codes "struct"
    ∷ codes "switch"
    ∷ codes "typedef"
    ∷ codes "union"
    ∷ codes "unsigned"
    ∷ codes "void"
    ∷ codes "volatile"
    ∷ codes "while"
    ∷ codes "NULL"
    ∷ codes "true"
    ∷ codes "false"
    ∷ []

abbrev pub starts_string : Text → Bool
starts_string [] = false
starts_string (c ∷ s) = c == b'"'

-- `re.fullmatch(r'\d+\.\d+|\d+', token)`
unfoldable pub is_numeral : Text → Bool
unfolding span
is_numeral token =
    is_number token
    || (let whole = span is_digit token in
        is_filled whole.0 && elim whole.1 [ [] ↦ false | c ∷ rest ↦ c == b'.' && is_number rest ])

-- Whether a token is renamed.
unfoldable pub is_abstracted : Text → Bool
unfolding is_numeral c_keywords
is_abstracted token =
    not (starts_string token)
    && (not (is_numeral token) && (not (member token c_keywords) && is_identifier token))

-- What a token that is not renamed becomes.
unfoldable pub fixed_token : Text → Text
unfolding is_numeral
fixed_token token =
    if starts_string token
    then codes "STR_LIT"
    else if is_numeral token
    then codes "NUM_LIT"
    else token

-- The name of an identifier and what comes of the rest of the tokens, given the map of the identifiers
-- to their numbers.
abbrev pub numbered : Dict Text ℕ → Text → Option ℕ → (Dict Text ℕ → List Text) → List Text
numbered ids t (some n) rest = (codes "VAR_" ++ decimal n) ∷ rest ids
numbered ids t none rest =
    (codes "VAR_" ++ decimal (length ids)) ∷ rest (ids ++ (t, length ids) ∷ [])

-- The loop over the tokens.
unfoldable pub abstract_tokens : Dict Text ℕ → List Text → List Text
unfolding is_abstracted fixed_token
abstract_tokens ids [] = []
abstract_tokens ids (t ∷ ts) = elim (is_abstracted t) [
  | true ↦ numbered ids t (get t ids) (λ d. abstract_tokens d ts)
  | false ↦ fixed_token t ∷ abstract_tokens ids ts
]

-- `_normalize_stmt_type2`
unfoldable pub normalize_stmt_type2 : Text → Text
unfolding clone_tokens abstract_tokens
normalize_stmt_type2 stmt = join_by b' ' (abstract_tokens [] (clone_tokens stmt))
