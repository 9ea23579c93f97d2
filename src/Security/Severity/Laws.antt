-- ===== src/Security/Severity/Laws.antt =====
-- The label of a scanner is read without regard to case and surrounding space.
use mathlib.Core.List.{reverse, reverse-append, reverse-cons}
use csc512_distributed_syste.Prelude.{
  ℕ, ◌≡◌, refl, ap, ◌∙◌, Bool, true, [], ◌∷◌, ◌++◌, map, map-append, arith, all, ◌⊎◌, inl, inr,
  Bool-cases,
}
use csc512_distributed_syste.Prelude.Dict.{get_or}
use csc512_distributed_syste.Prelude.Text.{
  Text, strip, strip_left, lower, lower_code, is_space, text_eq,
}
use csc512_distributed_syste.Security.Severity.{severity_map, normalize_severity, medium}

abbrev pub is_blank : Text → Bool
is_blank = all is_space

strip_left-blank-append :
    (pad s : Text) → is_blank pad ≡ true → strip_left (pad ++ s) ≡ strip_left s
unfolding strip_left all
strip_left-blank-append [] s h = refl
strip_left-blank-append (c ∷ pad) s h = ground (arith, strip_left-blank-append pad s)

all-append : (s t : Text) → is_blank s ≡ true → is_blank t ≡ true → is_blank (s ++ t) ≡ true
unfolding all
all-append [] t h k = k
all-append (c ∷ s) t h k = ground (arith, all-append s t)

all-reverse : (s : Text) → is_blank s ≡ true → is_blank (reverse s) ≡ true
unfolding all
all-reverse [] h = refl
all-reverse (c ∷ s) h =
    rw (reverse-cons c s)
      (all-append (reverse s) (c ∷ []) (all-reverse s (ground arith)) (ground arith))

strip_left-append-blank :
    (s pad : Text)
    → is_blank pad ≡ true
    → (strip_left (s ++ pad) ≡ strip_left s ++ pad) ⊎ (strip_left (s ++ pad) ≡ strip_left s)
unfolding strip_left all
strip_left-append-blank [] [] h = inl refl
strip_left-append-blank [] (c ∷ pad) h = inr (strip_left-all (c ∷ pad) h)
  where
    strip_left-all : (t : Text) → is_blank t ≡ true → strip_left t ≡ []
    strip_left-all [] k = refl
    strip_left-all (d ∷ t) k = ground (arith, strip_left-all t)
strip_left-append-blank (c ∷ s) pad h = elim (Bool-cases (is_space c)) [
  | inl b ↦ rw b (strip_left-append-blank s pad h)
  | inr b ↦ rw b (inl refl)
]

strip-append-blank : (s pad : Text) → is_blank pad ≡ true → strip (s ++ pad) ≡ strip s
unfolding strip
strip-append-blank s pad h = elim (strip_left-append-blank s pad h) [
  | inl e ↦
      rw (e, reverse-append (strip_left s) pad)
        (ap reverse
          (strip_left-blank-append (reverse pad) (reverse (strip_left s)) (all-reverse pad h)))
  | inr e ↦ rw e
]

strip-blank-append : (pad s : Text) → is_blank pad ≡ true → strip (pad ++ s) ≡ strip s
unfolding strip
strip-blank-append pad s h = rw (strip_left-blank-append pad s h)

is_space-lower_code : (c : ℕ) → is_space (lower_code c) ≡ is_space c
unfolding is_space lower_code
is_space-lower_code c = ground arith

lower_code_idem : (c : ℕ) → lower_code (lower_code c) ≡ lower_code c
unfolding lower_code
lower_code_idem c = ground arith

strip_left-lower : (s : Text) → strip_left (lower s) ≡ lower (strip_left s)
unfolding strip_left lower
strip_left-lower [] = refl
strip_left-lower (c ∷ s) = ground (arith, is_space-lower_code c, strip_left-lower s)

reverse-lower : (s : Text) → reverse (lower s) ≡ lower (reverse s)
unfolding lower
reverse-lower [] = refl
reverse-lower (c ∷ s) =
    rw (
      reverse-cons (lower_code c) (map lower_code s),
      reverse-cons c s,
      reverse-lower s,
      map-append,
    )

strip-lower : (s : Text) → strip (lower s) ≡ lower (strip s)
unfolding strip
strip-lower s = rw (
  strip_left-lower s,
  reverse-lower (strip_left s),
  strip_left-lower (reverse (strip_left s)),
  reverse-lower (strip_left (reverse (strip_left s))),
)

lower_idem : (s : Text) → lower (lower s) ≡ lower s
unfolding lower
lower_idem [] = refl
lower_idem (c ∷ s) = cc (lower_code_idem c, lower_idem s)

-- White space around a label and the case of its ASCII letters do not change the severity.
normalize_severity-pad :
    (before label after : Text)
    → is_blank before ≡ true
    → is_blank after ≡ true
    → (normalize_severity (before ++ (label ++ after)) ≡ normalize_severity label)
      × (normalize_severity (lower label) ≡ normalize_severity label)
unfolding normalize_severity
normalize_severity-pad before label after h k = (
  ap (λ s. get_or (lower s) medium severity_map)
      (strip-blank-append before (label ++ after) h ∙ strip-append-blank label after k),
  ap (λ s. get_or s medium severity_map) (ap lower (strip-lower label) ∙ lower_idem (strip label)),
)
