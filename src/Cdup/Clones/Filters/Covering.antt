-- ===== src/Cdup/Clones/Filters/Covering.antt =====
-- What the filters of cdup/src/detect.py keep.
use csc512_distributed_syste.Prelude.{
  ◌≡◌, refl, ap, sym, subst, Bool, true, false, ◌||◌, List, [], ◌∷◌, any, any-append, member,
  member-of_all, leb, ◌==◌, nat_eq, pair_eq, All, All-weaken, arith, Bool-cases, inl, inr, sound,
}
use csc512_distributed_syste.Prelude.Sort.{sorted, All-of_sorted}
use csc512_distributed_syste.Cdup.Clones.Filters.{
  Occurrence, CloneType, type_i, type_ii, CloneClass, inside, is_covered, eligible, covered_after,
  keep_maximal, maximal_classes,
}

inside_self : (o : Occurrence) → inside o o ≡ true
unfolding inside
inside_self o = ground arith

any-inside_self :
    (o : Occurrence) (os : List Occurrence) → member o os ≡ true → any (inside o) os ≡ true
unfolding any member
any-inside_self o [] h = cc
any-inside_self o (p ∷ os) h = elim (Bool-cases (p == o)) [
  | inl e ↦ ground (arith, ap (inside o) (sound p o e), inside_self o)
  | inr e ↦ ground (arith, e, h, any-inside_self o os)
]

-- Whether an occurrence is inside one of a kept class.
unfoldable pub is_kept : List CloneClass → Occurrence → Bool
is_kept kept o = any (λ k. any (inside o) k.occurrences) kept

unfoldable is_held : List Occurrence → List Occurrence → List CloneClass → Occurrence → Bool
unfolding is_kept
is_held covered_i covered_ii kept o =
    any (inside o) covered_i || (any (inside o) covered_ii || is_kept kept o)

eligible-covered :
    (t : CloneType) (o : Occurrence) (ci cii : List Occurrence)
    → any (inside o) (eligible t ci cii) ≡ true
    → any (inside o) ci || any (inside o) cii ≡ true
unfolding eligible
eligible-covered type_i o ci cii h = ground (arith, h)
eligible-covered type_ii o ci cii h = ground (arith, h, any-append (inside o) ci cii)

any-covered_after :
    (s t : CloneType) (o : Occurrence) (covered occs : List Occurrence)
    → any (inside o) (covered_after s t covered occs) ≡ true
    → any (inside o) covered || any (inside o) occs ≡ true
unfolding covered_after
any-covered_after type_i type_i o covered occs h =
    ground (arith, h, any-append (inside o) covered occs)
any-covered_after type_ii type_ii o covered occs h =
    ground (arith, h, any-append (inside o) covered occs)
any-covered_after type_i type_ii o covered occs h = ground (arith, h)
any-covered_after type_ii type_i o covered occs h = ground (arith, h)

-- Each occurrence of each class is inside an earlier kept one or one of those that the loop keeps.
abbrev Holds : List Occurrence → List Occurrence → List CloneClass → CloneClass → Type 0
Holds ci cii kept c =
    (o : Occurrence) → member o c.occurrences ≡ true → is_held ci cii kept o ≡ true

skipped :
    (ci cii : List Occurrence) (c : CloneClass) (cs : List CloneClass)
    → is_covered (eligible c.clone_type ci cii) c ≡ true
    → keep_maximal ci cii (c ∷ cs) ≡ keep_maximal ci cii cs
unfolding keep_maximal
skipped ci cii c cs e = rw (keep_maximal, e) refl

taken :
    (ci cii : List Occurrence) (c : CloneClass) (cs : List CloneClass)
    → is_covered (eligible c.clone_type ci cii) c ≡ false
    → keep_maximal ci cii (c ∷ cs)
      ≡ c
        ∷ keep_maximal
            (covered_after type_i c.clone_type ci c.occurrences)
            (covered_after type_ii c.clone_type cii c.occurrences)
            cs
unfolding keep_maximal
taken ci cii c cs e = rw (keep_maximal, e) refl

keep_maximal-held :
    (ci cii : List Occurrence) (cs : List CloneClass)
    → All (Holds ci cii (keep_maximal ci cii cs)) cs
unfolding is_held is_kept is_covered any
keep_maximal-held ci cii [] = tt
keep_maximal-held ci cii (c ∷ cs) =
    elim (Bool-cases (is_covered (eligible c.clone_type ci cii) c)) [
      | inl e ↦
          subst (λ ks. All (Holds ci cii ks) (c ∷ cs)) (sym (skipped ci cii c cs e))
            (
              λ o m. ground (
                arith,
                eligible-covered c.clone_type o ci cii (
                    member-of_all (λ p. any (inside p) (eligible c.clone_type ci cii)) o
                      c.occurrences e m),
              ),
              keep_maximal-held ci cii cs,
            )
      | inr e ↦
          let ci_after = covered_after type_i c.clone_type ci c.occurrences in
          let cii_after = covered_after type_ii c.clone_type cii c.occurrences in
          let kept = keep_maximal ci_after cii_after cs in
          subst (λ ks. All (Holds ci cii ks) (c ∷ cs)) (sym (taken ci cii c cs e))
            (
              λ o m. ground (arith, any-inside_self o c.occurrences m),
              All-weaken (Holds ci_after cii_after kept) (Holds ci cii (c ∷ kept)) cs
                  (λ d h o m. ground (
                    arith,
                    h o m,
                    any-covered_after type_i c.clone_type o ci c.occurrences,
                    any-covered_after type_ii c.clone_type o cii c.occurrences,
                  ))
                  (keep_maximal-held ci_after cii_after cs),
            )
    ]

-- The filter on maximal classes loses no place: each occurrence of each class is inside an occurrence
-- of a class that is kept.
pub maximal_classes-covering :
    (classes : List CloneClass)
    → All
        (λ c.
          (o : Occurrence)
          → member o c.occurrences ≡ true
          → is_kept (maximal_classes classes) o ≡ true)
        classes
unfolding maximal_classes is_held any
maximal_classes-covering classes =
    All-of_sorted (λ x y. leb y.length x.length)
      (λ c.
        (o : Occurrence)
        → member o c.occurrences ≡ true
        → is_kept (maximal_classes classes) o ≡ true)
      classes (keep_maximal-held [] [] (sorted (λ x y. leb y.length x.length) classes))
