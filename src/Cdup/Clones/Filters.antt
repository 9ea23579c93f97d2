-- ===== src/Cdup/Clones/Filters.antt =====
-- The clone classes of `detect_clones` of cdup/src/detect.py: from runs to classes, and the two filters
-- on the classes. The number of a class is its place in the list.
pub mod Covering
use csc512_distributed_syste.Prelude.{
  ℕ, zero, suc, ◌+◌, ◌-◌, ◌≡◌, Bool, true, false, ◌&&◌, ◌||◌, not, Option, none, some, List, [],
  ◌∷◌, ◌++◌, all, any, member, select, map, get_elem?, leb, ◌==◌, nat_eq, pair_eq, if◌then◌else◌,
}
use csc512_distributed_syste.Prelude.Dict.{Dict, get_or, put}
use csc512_distributed_syste.Prelude.Text.{Text}
use csc512_distributed_syste.Prelude.Sort.{sorted}
use csc512_distributed_syste.Cdup.Clones.Scan.{Entry, Flat, Run}

-- A segment, and the first and the last statement of the occurrence in it.
abbrev pub Occurrence : Type 0
Occurrence = ℕ × (ℕ × ℕ)

pub data CloneType : Type 0 where
  type_i type_ii : CloneType

pub record CloneClass : Type 0 where
  pub clone_type : CloneType
  pub length : ℕ
  pub occurrences : List Occurrence

-- `any(seg == cseg and cs <= start and end <= ce ...)` for one of the occurrences.
unfoldable pub inside : Occurrence → Occurrence → Bool
inside o c = o.0 == c.0 && (leb c.1.0 o.1.0 && leb o.1.1 c.1.1)

unfoldable pub is_covered : List Occurrence → CloneClass → Bool
unfolding inside
is_covered covered c = all (λ o. any (inside o) covered) c.occurrences

-- `eligible_covered`, and `covered_by_type[ct].update(occs)` on its two entries.
unfoldable pub eligible : CloneType → List Occurrence → List Occurrence → List Occurrence
eligible type_i covered_i covered_ii = covered_i
eligible type_ii covered_i covered_ii = covered_i ++ covered_ii

unfoldable pub covered_after :
    CloneType → CloneType → List Occurrence → List Occurrence → List Occurrence
covered_after type_i type_i covered occs = covered ++ occs
covered_after type_ii type_ii covered occs = covered ++ occs
covered_after type_i type_ii covered occs = covered
covered_after type_ii type_i covered occs = covered

-- The loop of the filter on maximal classes, with the occurrences of the kept classes of Type I and of
-- Type II.
unfoldable pub keep_maximal : List Occurrence → List Occurrence → List CloneClass → List CloneClass
unfolding is_covered eligible covered_after
keep_maximal covered_i covered_ii [] = []
keep_maximal covered_i covered_ii (c ∷ cs) =
    elim (is_covered (eligible c.clone_type covered_i covered_ii) c) [
      | true ↦ keep_maximal covered_i covered_ii cs
      | false ↦
          c
          ∷ keep_maximal (covered_after type_i c.clone_type covered_i c.occurrences)
              (covered_after type_ii c.clone_type covered_ii c.occurrences) cs
    ]

-- `if maximal:`
unfoldable pub maximal_classes : List CloneClass → List CloneClass
unfolding keep_maximal
maximal_classes classes = keep_maximal [] [] (sorted (λ x y. leb y.length x.length) classes)

unfoldable pub ranges_overlap : Occurrence → Occurrence → Bool
ranges_overlap a b = leb a.1.0 b.1.1 && leb b.1.0 a.1.1

unfoldable pub has_overlap : List Occurrence → Bool
unfolding ranges_overlap
has_overlap [] = false
has_overlap (o ∷ os) = any (ranges_overlap o) os || has_overlap os

-- `len(set(seg ...)) == 1`
unfoldable pub all_same_seg : List Occurrence → Bool
all_same_seg [] = false
all_same_seg (o ∷ os) = all (λ p. p.0 == o.0) os

-- `if filter_overlaps:`
unfoldable pub without_overlaps : List CloneClass → List CloneClass
unfolding has_overlap all_same_seg
without_overlaps = select (λ c. not (all_same_seg c.occurrences && has_overlap c.occurrences))
