-- ===== src/Cdup/Expr/Pratt/NoCast.antt =====
-- `_try_parse_cast_type` of cdup/src/expr.py on the tokens of a type and of an expression.
use csc512_distributed_syste.Prelude.{
  ◌≡◌, refl, ap, sym, ◌∙◌, ◌≢◌, Bool, true, false, not, ◌||◌, Option, List, [], ◌∷◌, ◌++◌, all,
  member, member-of_all, leb, ◌==◌, All, arith, Bool-cases, inl, inr, append_assoc, append-nil,
}
use csc512_distributed_syste.Prelude.Dict.{keys}
use csc512_distributed_syste.Prelude.Text.{Text, codes, text_eq, text_beq, join_by}
use mathlib.Core.Option.{some, none}
use csc512_distributed_syste.Cdup.Expr.Tokens.{op, Token, token}
use csc512_distributed_syste.Cdup.Expr.Parser.{unop, cast_types, cast_parts}
use csc512_distributed_syste.Cdup.Expr.Pratt.Surface.{
  Expr, Exprs, empty, more, shown_all, number, string, character, var, unary, cast, binary, index,
  field, call, post_inc, post_dec, level, power, type_tokens, enclosed, shown, IsExpr,
}

-- No type begins with an expression that is written as one is.
module _ (is_float : Text → Bool) where
  enclosed-NoCast :
      (b : Bool) (f : List Token → List Token)
      → ((parts : List Text) (ts : List Token) → cast_parts parts (f ts) ≡ none)
      → (parts : List Text) (ts : List Token) → cast_parts parts (enclosed b f ts) ≡ none
  unfolding cast_parts text_beq
  enclosed-NoCast true f h parts ts = h parts ts
  enclosed-NoCast false f h parts ts = refl

  not_close : (o : Text) → member o (keys unop) ≡ true → not (o == codes ")") ≡ true
  unfolding unop keys all text_beq
  not_close o h = member-of_all (λ k. not (k == codes ")")) o (keys unop) refl h

  unary-NoCast :
      (o : Text) (ts : List Token)
      → not (o == codes ")") ≡ true
      → ((parts : List Text) → cast_parts parts ts ≡ none)
      → (parts : List Text) → cast_parts parts (token op o ∷ ts) ≡ none
  unfolding cast_parts
  unary-NoCast o ts h ih parts = ground (arith, ih (parts ++ o ∷ []))

  pub shown-NoCast :
      (e : Expr)
      → IsExpr is_float e
      → (parts : List Text) (ts : List Token) → cast_parts parts (shown e ts) ≡ none
  unfolding shown cast_parts IsExpr text_beq
  shown-NoCast (number t) w parts ts = refl
  shown-NoCast (string t) w parts ts = refl
  shown-NoCast (character t) w parts ts = refl
  shown-NoCast (var x) w parts ts = rw (w.1.1) refl
  shown-NoCast (unary o e) w parts ts =
      unary-NoCast o (enclosed (leb 100 (level e)) (λ us. shown e us) ts) (not_close o w.0)
        (λ ps. enclosed-NoCast (leb 100 (level e)) (λ us. shown e us) (shown-NoCast e w.1) ps ts)
        parts
  shown-NoCast (cast ps e) w parts ts = refl
  shown-NoCast (binary o l r) w parts ts =
      enclosed-NoCast (leb (power o) (level l)) (λ us. shown l us) (shown-NoCast l w.1.0) parts _
  shown-NoCast (index l i) w parts ts =
      enclosed-NoCast (leb 130 (level l)) (λ us. shown l us) (shown-NoCast l w.0) parts _
  shown-NoCast (field s l x) w parts ts =
      enclosed-NoCast (leb 130 (level l)) (λ us. shown l us) (shown-NoCast l w.1) parts _
  shown-NoCast (call l args) w parts ts =
      enclosed-NoCast (leb 130 (level l)) (λ us. shown l us) (shown-NoCast l w.0) parts _
  shown-NoCast (post_inc l) w parts ts =
      enclosed-NoCast (leb 130 (level l)) (λ us. shown l us) (shown-NoCast l w) parts _
  shown-NoCast (post_dec l) w parts ts =
      enclosed-NoCast (leb 130 (level l)) (λ us. shown l us) (shown-NoCast l w) parts _

-- There is a first token, and it does not close a call.
unfoldable pub opens : List Token → Bool
opens [] = false
opens (t ∷ ts) = not (t.text == codes ")")

enclosed-opens :
    (b : Bool) (f : List Token → List Token) (ts : List Token)
    → ((us : List Token) → opens (f us) ≡ true)
    → opens (enclosed b f ts) ≡ true
unfolding opens text_beq
enclosed-opens true f ts h = h ts
enclosed-opens false f ts h = refl

module _ (is_float : Text → Bool) where
  pub shown-opens : (e : Expr) → IsExpr is_float e → (ts : List Token) → opens (shown e ts) ≡ true
  unfolding shown opens IsExpr text_beq
  shown-opens (number t) w ts = rw (w.0) refl
  shown-opens (string t) w ts = rw w refl
  shown-opens (character t) w ts = rw w refl
  shown-opens (var x) w ts = rw (w.0) refl
  shown-opens (unary o e) w ts = not_close is_float o w.0
  shown-opens (cast ps e) w ts = refl
  shown-opens (binary o l r) w ts =
      enclosed-opens (leb (power o) (level l)) (λ us. shown l us) _ (shown-opens l w.1.0)
  shown-opens (index l i) w ts =
      enclosed-opens (leb 130 (level l)) (λ us. shown l us) _ (shown-opens l w.0)
  shown-opens (field s l x) w ts =
      enclosed-opens (leb 130 (level l)) (λ us. shown l us) _ (shown-opens l w.1)
  shown-opens (call l args) w ts =
      enclosed-opens (leb 130 (level l)) (λ us. shown l us) _ (shown-opens l w.0)
  shown-opens (post_inc l) w ts =
      enclosed-opens (leb 130 (level l)) (λ us. shown l us) _ (shown-opens l w)
  shown-opens (post_dec l) w ts =
      enclosed-opens (leb 130 (level l)) (λ us. shown l us) _ (shown-opens l w)

  pub shown_all-opens :
      (e : Expr) (es : Exprs)
      → IsExpr is_float e
      → (ts : List Token) → opens (shown_all (more e es) ts) ≡ true
  unfolding shown
  shown_all-opens e empty w ts =
      enclosed-opens (leb 1 (level e)) (λ us. shown e us) ts (shown-opens e w)
  shown_all-opens e (more d es) w ts =
      enclosed-opens (leb 1 (level e)) (λ us. shown e us) _ (shown-opens e w)

found_parts : List Text → List Token → Option (Text × List Token)
found_parts [] ts = none
found_parts (p ∷ ps) ts = some (join_by b' ' (p ∷ ps), ts)

-- A part of a type is taken.
cast_parts-part :
    (parts : List Text) (p : Text) (ts : List Token)
    → p == codes "*" || member p cast_types ≡ true
    → cast_parts parts (type_tokens (p ∷ []) ts) ≡ cast_parts (parts ++ p ∷ []) ts
unfolding cast_parts type_tokens
cast_parts-part parts p ts h = elim (Bool-cases (p == codes "*")) [
  | inl e ↦ rw (e, e) refl
  | inr e ↦ let m : member p cast_types ≡ true = (rw e at h) in rw (e, m) refl
]

cast_parts-type_tokens :
    (parts ps : List Text) (ts : List Token)
    → All (λ p. p == codes "*" || member p cast_types ≡ true) ps
    → cast_parts parts (type_tokens ps (token op (codes ")") ∷ ts)) ≡ found_parts (parts ++ ps) ts
unfolding cast_parts type_tokens found_parts text_beq
cast_parts-type_tokens [] [] ts h = refl
cast_parts-type_tokens (q ∷ qs) [] ts h = ap (λ l. found_parts l ts) (sym (append-nil (q ∷ qs)))
cast_parts-type_tokens parts (p ∷ ps) ts h =
    cast_parts-part parts p (type_tokens ps (token op (codes ")") ∷ ts)) h.0
    ∙ cast_parts-type_tokens (parts ++ p ∷ []) ps ts h.1
    ∙ ap (λ l. found_parts l ts) (append_assoc parts (p ∷ []) ps)

pub cast_parts-found :
    (ps : List Text) (ts : List Token)
    → ps ≢ []
    → All (λ p. p == codes "*" || member p cast_types ≡ true) ps
    → cast_parts [] (type_tokens ps (token op (codes ")") ∷ ts)) ≡ some (join_by b' ' ps, ts)
unfolding found_parts
cast_parts-found [] ts h a = absurd (h refl)
cast_parts-found (p ∷ ps) ts h a = cast_parts-type_tokens [] (p ∷ ps) ts a
