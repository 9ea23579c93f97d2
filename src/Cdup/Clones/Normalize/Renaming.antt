-- ===== src/Cdup/Clones/Normalize/Renaming.antt =====
-- The Type II norm of cdup/src/detect.py does not depend on the names.
use csc512_distributed_syste.Prelude.{
  ℕ, ◌≡◌, refl, ap, sym, ◌∙◌, true, false, Option, none, some, List, [], ◌∷◌, ◌++◌, map, map-append,
  length, if◌then◌else◌, arith, Bool-cases, inl, inr, length-map,
}
use csc512_distributed_syste.Prelude.Dict.{Dict, get}
use csc512_distributed_syste.Prelude.Text.{Text, codes, text_eq, text_beq_iff, decimal, join_by}
use csc512_distributed_syste.Cdup.Clones.Normalize.{
  is_abstracted, fixed_token, numbered, abstract_tokens, clone_tokens, normalize_stmt_type2,
}

abstracted :
    (ids : Dict Text ℕ) (t : Text) (ts : List Text)
    → is_abstracted t ≡ true
    → abstract_tokens ids (t ∷ ts) ≡ numbered ids t (get t ids) (λ d. abstract_tokens d ts)
unfolding abstract_tokens
abstracted ids t ts e = rw (abstract_tokens, e) refl

fixed :
    (ids : Dict Text ℕ) (t : Text) (ts : List Text)
    → is_abstracted t ≡ false
    → abstract_tokens ids (t ∷ ts) ≡ fixed_token t ∷ abstract_tokens ids ts
unfolding abstract_tokens
fixed ids t ts e = rw (abstract_tokens, e) refl

module _ (r : Text → Text) (injective : (s t : Text) → r s ≡ r t → s ≡ t)
    (identifiers : (t : Text) → is_abstracted t ≡ true → is_abstracted (r t) ≡ true) where
  -- A token after the renaming.
  unfoldable pub renamed : Text → Text
  renamed t = if is_abstracted t then r t else t

  abbrev pub renamed_key : Text × ℕ → Text × ℕ
  renamed_key e = (r e.0, e.1)

  get-renamed : (t : Text) (ids : Dict Text ℕ) → get (r t) (map renamed_key ids) ≡ get t ids
  unfolding get
  get-renamed t [] = refl
  get-renamed t ((k, n) ∷ ids) =
      ground
        (arith, get-renamed t ids, text_beq_iff (r k) (r t), text_beq_iff k t, injective k t, ap r)

  numbered-renamed :
      (ids : Dict Text ℕ) (t : Text) (o : Option ℕ) (rest other : Dict Text ℕ → List Text)
      → rest (map renamed_key ids) ≡ other ids
      → rest (map renamed_key ids ++ (r t, length ids) ∷ []) ≡ other (ids ++ (t, length ids) ∷ [])
      → numbered (map renamed_key ids) (r t) o rest ≡ numbered ids t o other
  numbered-renamed ids t none rest other h k =
      let same = length-map renamed_key ids in rw (same, k) refl
  numbered-renamed ids t (some n) rest other h k = ap (λ l. (codes "VAR_" ++ decimal n) ∷ l) h

  abstract_tokens-renamed :
      (ids : Dict Text ℕ) (ts : List Text)
      → abstract_tokens (map renamed_key ids) (map renamed ts) ≡ abstract_tokens ids ts
  unfolding renamed abstract_tokens
  abstract_tokens-renamed ids [] = refl
  abstract_tokens-renamed ids (t ∷ ts) = elim (Bool-cases (is_abstracted t)) [
    | inl e ↦
        let new : renamed t ≡ r t = ap (λ b. if b then r t else t) e in
        let kept = abstract_tokens-renamed ids ts in
        let grown =
          ap (λ d. abstract_tokens d (map renamed ts))
            (sym (map-append renamed_key ids ((t, length ids) ∷ [])))
          ∙ abstract_tokens-renamed (ids ++ (t, length ids) ∷ []) ts in
        ap (λ w. abstract_tokens (map renamed_key ids) (w ∷ map renamed ts)) new
        ∙ abstracted (map renamed_key ids) (r t) (map renamed ts) (identifiers t e)
        ∙ ap (λ o. numbered (map renamed_key ids) (r t) o (λ d. abstract_tokens d (map renamed ts)))
            (get-renamed t ids)
        ∙ numbered-renamed ids t (get t ids) (λ d. abstract_tokens d (map renamed ts))
            (λ d. abstract_tokens d ts) kept grown
        ∙ sym (abstracted ids t ts e)
    | inr e ↦
        let new : renamed t ≡ t = ap (λ b. if b then r t else t) e in
        ap (λ w. abstract_tokens (map renamed_key ids) (w ∷ map renamed ts)) new
        ∙ fixed (map renamed_key ids) t (map renamed ts) e
        ∙ ap (λ l. fixed_token t ∷ l) (abstract_tokens-renamed ids ts)
        ∙ sym (fixed ids t ts e)
  ]

  -- Two statements, one of which has the tokens of the other with each identifier replaced by an
  -- identifier of its own, have the same Type II norm. Identifiers are what the code takes for one: all
  -- words but the keywords of C.
  pub normalize_stmt_type2-renamed :
      (stmt other : Text)
      → clone_tokens other ≡ map renamed (clone_tokens stmt)
      → normalize_stmt_type2 other ≡ normalize_stmt_type2 stmt
  unfolding normalize_stmt_type2
  normalize_stmt_type2-renamed stmt other h =
      ap (λ ts. join_by b' ' (abstract_tokens [] ts)) h
      ∙ ap (join_by b' ') (abstract_tokens-renamed [] (clone_tokens stmt))
