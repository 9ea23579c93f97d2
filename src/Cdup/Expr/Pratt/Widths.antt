-- ===== src/Cdup/Expr/Pratt/Widths.antt =====
-- The places of operators of cdup/src/expr.py, and the tokens and turns of the loop that an expression takes.
use csc512_distributed_syste.Prelude.{
  ℕ, suc, ◌+◌, ◌≤◌, ◌<◌, ◌≡◌, sym, subst, Bool, true, false, ◌||◌, List, [], ◌∷◌, length, leb, ◌==◌,
  arith, or_true, sound, inl, inr,
}
use csc512_distributed_syste.Prelude.Dict.{get, get_or}
use csc512_distributed_syste.Prelude.Text.{Text, codes, text_eq, text_beq}
use csc512_distributed_syste.Cdup.Expr.Tokens.{name, op, Token, token}
use csc512_distributed_syste.Cdup.Expr.Parser.{lbp}
use csc512_distributed_syste.Cdup.Expr.Pratt.Surface.{
  Expr, Exprs, empty, more, number, string, character, var, unary, cast, binary, index, field,
  post_inc, post_dec, level, power, type_tokens, enclosed, shown, shown_all,
}

pub closes : power (codes ")") ≤ 0
unfolding get_or get text_beq lbp
closes = omega arith

pub closes_index : power (codes "]") ≤ 0
unfolding get_or get text_beq lbp
closes_index = omega arith

pub closes_argument : power (codes ",") ≤ 0
unfolding get_or get text_beq lbp
closes_argument = omega arith

pub ends : power [] ≤ 0
unfolding get_or get text_beq lbp
ends = omega arith

unfoldable pub IsPostfix : Text → Type 0
IsPostfix o = (100 < power o) × (power o ≤ 130)

pub index-IsPostfix : IsPostfix (codes "[")
unfolding get_or get text_beq lbp IsPostfix
index-IsPostfix = (omega arith, omega arith)

pub call-IsPostfix : IsPostfix (codes "(")
unfolding get_or get text_beq lbp IsPostfix
call-IsPostfix = (omega arith, omega arith)

pub inc-IsPostfix : IsPostfix (codes "++")
unfolding get_or get text_beq lbp IsPostfix
inc-IsPostfix = (omega arith, omega arith)

pub dec-IsPostfix : IsPostfix (codes "--")
unfolding get_or get text_beq lbp IsPostfix
dec-IsPostfix = (omega arith, omega arith)

dot-IsPostfix : IsPostfix (codes ".")
unfolding get_or get text_beq lbp IsPostfix
dot-IsPostfix = (omega arith, omega arith)

arrow-IsPostfix : IsPostfix (codes "->")
unfolding get_or get text_beq lbp IsPostfix
arrow-IsPostfix = (omega arith, omega arith)

pub field-IsPostfix : (s : Text) → s == codes "." || s == codes "->" ≡ true → IsPostfix s
field-IsPostfix s h = elim (or_true (s == codes ".") (s == codes "->") h) [
  | inl e ↦ subst (λ v. IsPostfix v) (sym (sound s (codes ".") e)) dot-IsPostfix
  | inr e ↦ subst (λ v. IsPostfix v) (sym (sound s (codes "->") e)) arrow-IsPostfix
]

-- The turns of the loop that an expression takes, and the first token's one.
abbrev pub turns_at : Bool → ℕ → ℕ
turns_at true n = n
turns_at false n = 1

unfoldable pub turns : Expr → ℕ
unfolding level
turns (binary o l r) = suc (turns_at (leb (power o) (level l)) (turns l))
turns (index l i) = suc (turns_at (leb 130 (level l)) (turns l))
turns (field s l x) = suc (turns_at (leb 130 (level l)) (turns l))
turns (Expr.call l args) = suc (turns_at (leb 130 (level l)) (turns l))
turns (post_inc l) = suc (turns_at (leb 130 (level l)) (turns l))
turns (post_dec l) = suc (turns_at (leb 130 (level l)) (turns l))
turns _ = 1

pub longer_at :
    (b : Bool) (e : Expr) (ts : List Token)
    → ((us : List Token) → turns e + length us ≤ length (shown e us))
    → turns_at b (turns e) + length ts ≤ length (enclosed b (λ us. shown e us) ts)
longer_at true e ts h = h ts
longer_at false e ts h = omega (arith, h (token op (codes ")") ∷ ts))

pub type_tokens-longer : (ps : List Text) (ts : List Token) → length ts ≤ length (type_tokens ps ts)
unfolding type_tokens
type_tokens-longer [] ts = omega arith
type_tokens-longer (p ∷ ps) ts = omega (arith, type_tokens-longer ps ts)

turns_at_ge : (b : Bool) (e : Expr) → 1 ≤ turns e → 1 ≤ turns_at b (turns e)
turns_at_ge true e h = h
turns_at_ge false e h = omega arith

turns_ge : (e : Expr) → 1 ≤ turns e
unfolding turns
turns_ge (binary o l r) = omega arith
turns_ge (index l i) = omega arith
turns_ge (field s l x) = omega arith
turns_ge (Expr.call l args) = omega arith
turns_ge (post_inc l) = omega arith
turns_ge (post_dec l) = omega arith
turns_ge (number t) = omega arith
turns_ge (string t) = omega arith
turns_ge (character t) = omega arith
turns_ge (var x) = omega arith
turns_ge (unary o e) = omega arith
turns_ge (cast ps e) = omega arith

mutual
  unfolding turns shown

  pub shown-longer : (e : Expr) (ts : List Token) → turns e + length ts ≤ length (shown e ts)
  shown-longer (number t) ts = omega arith
  shown-longer (string t) ts = omega arith
  shown-longer (character t) ts = omega arith
  shown-longer (var x) ts = omega arith
  shown-longer (unary o e) ts = omega (arith, longer_at (leb 100 (level e)) e ts (shown-longer e))
  shown-longer (cast ps e) ts =
      let rest = enclosed (leb 100 (level e)) (λ us. shown e us) ts in
      omega (
        arith,
        longer_at (leb 100 (level e)) e ts (shown-longer e),
        type_tokens-longer ps (token op (codes ")") ∷ rest),
      )
  shown-longer (binary o l r) ts =
      let rest = enclosed (leb (suc (power o)) (level r)) (λ us. shown r us) ts in
      omega (
        arith,
        longer_at (leb (suc (power o)) (level r)) r ts (shown-longer r),
        longer_at (leb (power o) (level l)) l (token op o ∷ rest) (shown-longer l),
      )
  shown-longer (index l i) ts =
      let close = token op (codes "]") ∷ ts in
      let rest = enclosed (leb 1 (level i)) (λ us. shown i us) close in
      omega (
        arith,
        longer_at (leb 1 (level i)) i close (shown-longer i),
        longer_at (leb 130 (level l)) l (token op (codes "[") ∷ rest) (shown-longer l),
      )
  shown-longer (field s l x) ts =
      omega
        (arith, longer_at (leb 130 (level l)) l (token op s ∷ token name x ∷ ts) (shown-longer l))
  shown-longer (Expr.call l args) ts =
      let close = token op (codes ")") ∷ ts in
      omega (
        arith,
        shown_all-longer args close,
        longer_at (leb 130 (level l)) l (token op (codes "(") ∷ shown_all args close)
            (shown-longer l),
      )
  shown-longer (post_inc l) ts =
      omega (arith, longer_at (leb 130 (level l)) l (token op (codes "++") ∷ ts) (shown-longer l))
  shown-longer (post_dec l) ts =
      omega (arith, longer_at (leb 130 (level l)) l (token op (codes "--") ∷ ts) (shown-longer l))

  pub shown_all-longer : (es : Exprs) (ts : List Token) → length ts ≤ length (shown_all es ts)
  shown_all-longer empty ts = omega arith
  shown_all-longer (more e empty) ts =
      omega (arith, longer_at (leb 1 (level e)) e ts (shown-longer e))
  shown_all-longer (more e (more d es)) ts =
      let rest = token op (codes ",") ∷ shown_all (more d es) ts in
      omega (
        arith,
        longer_at (leb 1 (level e)) e rest (shown-longer e),
        shown_all-longer (more d es) ts,
      )
