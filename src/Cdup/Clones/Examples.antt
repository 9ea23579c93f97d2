-- ===== src/Cdup/Clones/Examples.antt =====
-- The theorems about cdup/src/detect.py at concrete statements.
use csc512_distributed_syste.Prelude.{
  ℕ, ◌≡◌, refl, ap, true, none, some, List, [], ◌∷◌, map, all, member, length-map, nat_eq, pair_eq,
  ◌↔◌, All, if◌then◌else◌, arith,
}
use csc512_distributed_syste.Prelude.Text.{Text, codes, text_eq, text_beq}
use csc512_distributed_syste.Cdup.Slots.{is_alpha, is_word, is_identifier, is_number, is_digit}
use csc512_distributed_syste.Cdup.Expr.Tokens.{span}
use csc512_distributed_syste.Cdup.Ir.{Statement, Segment, assign, function}
use csc512_distributed_syste.Cdup.Clones.Normalize.{
  is_abstracted, is_numeral, c_keywords, clone_tokens, normalize_stmt_type2,
}
use csc512_distributed_syste.Cdup.Clones.Normalize.Renaming.{renamed, normalize_stmt_type2-renamed}
use csc512_distributed_syste.Cdup.Clones.Scan.{Entry, Flat, completed_clones}
use csc512_distributed_syste.Cdup.Clones.Scan.Reported.{IsLongest, completed_clones_iff}
use csc512_distributed_syste.Cdup.Clones.Scan.Frequency.{IsRare, completed_clones-IsRare}
use csc512_distributed_syste.Cdup.Clones.Filters.{CloneClass, type_i, type_ii, maximal_classes}
use csc512_distributed_syste.Cdup.Clones.Filters.Covering.{is_kept, maximal_classes-covering}
use csc512_distributed_syste.Cdup.Clones.Semantic.{
  Signature, count_rw, is_text, semantic_signature, detect_type4,
}
use csc512_distributed_syste.Cdup.Clones.Semantic.Groups.{
  IsSemanticClass, detect_type4-IsSemanticClass,
}
use csc512_distributed_syste.Cdup.Clones.Semantic.Names.{rewritten, semantic_signature-rewritten}

abbrev an_entry : ℕ → Text → Entry
an_entry i norm = record { seg_id = 1; stmt_idx = i; norm = norm; norm1 = norm }

-- a b | a b
abbrev a_flat : Flat
a_flat =
    some (an_entry 0 (codes "a"))
    ∷ some (an_entry 1 (codes "b"))
    ∷ none
    ∷ some (an_entry 0 (codes "a"))
    ∷ some (an_entry 1 (codes "b"))
    ∷ none
    ∷ []

completed_clones_iff_example :
    (member (0, (3, 2)) (completed_clones 2 0 a_flat) ≡ true) ↔ IsLongest a_flat 2 (0, (3, 2))
completed_clones_iff_example = completed_clones_iff a_flat 2 (0, (3, 2))

completed_clones-IsRare_example : All (λ c. IsRare a_flat 2 c) (completed_clones 2 2 a_flat)
completed_clones-IsRare_example = completed_clones-IsRare a_flat 2 (omega arith) 2

-- Each identifier gets an `X` in front.
abbrev with_x : Text → Text
with_x t = b'X' ∷ t

abbrev without_first : Text → Text
without_first [] = []
without_first (c ∷ s) = s

identifier_words : (t : Text) → is_identifier t ≡ true → all is_word t ≡ true
unfolding is_identifier all is_word
identifier_words [] h = refl
identifier_words (c ∷ s) h = ground (arith, h)

abstracted-is_identifier : (t : Text) → is_abstracted t ≡ true → is_identifier t ≡ true
unfolding is_abstracted
abstracted-is_identifier t h = ground (arith, h)

with_x-is_abstracted : (t : Text) → is_abstracted t ≡ true → is_abstracted (with_x t) ≡ true
unfolding is_abstracted is_numeral is_number is_identifier c_keywords member text_beq span is_digit
    is_alpha all
with_x-is_abstracted t h = identifier_words t (abstracted-is_identifier t h)

renamed_tokens :
    clone_tokens (codes "Xx = Xy + Xx;")
    ≡ map
        (renamed with_x (λ s t p. ap without_first p) with_x-is_abstracted)
        (clone_tokens (codes "x=y+x;"))
unfolding renamed clone_tokens is_abstracted is_alpha is_word is_number all member text_beq
    is_identifier
renamed_tokens = refl

normalize_stmt_type2-renamed_example :
    normalize_stmt_type2 (codes "Xx = Xy + Xx;") ≡ normalize_stmt_type2 (codes "x=y+x;")
normalize_stmt_type2-renamed_example =
    normalize_stmt_type2-renamed with_x (λ s t p. ap without_first p) with_x-is_abstracted
      (codes "x=y+x;") (codes "Xx = Xy + Xx;") renamed_tokens

abbrev long_class : CloneClass
long_class = record {
  clone_type = type_i;
  length = 3;
  occurrences = (1, (0, 2)) ∷ (2, (0, 2)) ∷ [];
}

abbrev short_class : CloneClass
short_class = record {
  clone_type = type_ii;
  length = 2;
  occurrences = (1, (0, 1)) ∷ (2, (1, 2)) ∷ [];
}

abbrev two_classes : List CloneClass
two_classes = short_class ∷ long_class ∷ []

maximal_classes-covering_example :
    All
      (λ c.
        (o : ℕ × (ℕ × ℕ))
        → member o c.occurrences ≡ true
        → is_kept (maximal_classes two_classes) o ≡ true)
      two_classes
maximal_classes-covering_example = maximal_classes-covering two_classes

abbrev a_statement : Text → Statement
a_statement x = record {
  raw = x;
  kind = assign;
  l_name = some x;
  r_names = x ∷ [];
  expr = none;
  type = none;
  iterator_type = none;
}

abbrev a_function : ℕ → Text → Segment
a_function n x = record {
  id = n;
  parent = 0;
  type = function;
  name = x;
  scope_path = x;
  head = none;
  memory = [];
  constants = [];
  stmts = a_statement x ∷ a_statement x ∷ [];
}

abbrev two_functions : List Segment
two_functions = a_function 1 (codes "f") ∷ a_function 2 (codes "g") ∷ []

-- A hash that does not tell signatures apart.
abbrev no_hash : Signature → Text
no_hash sig = []

detect_type4-IsSemanticClass_example :
    All (λ g. IsSemanticClass no_hash two_functions 2 g) (detect_type4 no_hash 2 two_functions)
detect_type4-IsSemanticClass_example = detect_type4-IsSemanticClass no_hash two_functions 2

-- Each statement reads other names.
abbrev with_other_names : Statement → Statement
with_other_names s = record s { r_names = map with_x s.r_names }

same_counts : (s : Statement) → count_rw (with_other_names s) ≡ count_rw s
unfolding count_rw
same_counts s = ap (λ n. (n, if is_text s.l_name then 1 else 0)) (length-map with_x s.r_names)

semantic_signature-rewritten_example :
    semantic_signature
      (map (rewritten with_other_names (λ s. refl) (λ s. refl) same_counts) two_functions)
      3
      (rewritten with_other_names (λ s. refl) (λ s. refl) same_counts (a_function 1 (codes "f")))
    ≡ semantic_signature two_functions 3 (a_function 1 (codes "f"))
semantic_signature-rewritten_example =
    semantic_signature-rewritten with_other_names (λ s. refl) (λ s. refl) same_counts two_functions
      3 (a_function 1 (codes "f"))
