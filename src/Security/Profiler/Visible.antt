-- ===== src/Security/Profiler/Visible.antt =====
-- The scans find what stands in the directories that can be reached.
use csc512_distributed_syste.Prelude.{
  ℕ, zero, suc, ◌+◌, ◌≡◌, refl, ◌∙◌, Bool, false, ◌&&◌, ◌||◌, none, some, List, [], ◌∷◌, ◌++◌, any,
  any-append, member, member-append, Distinct, is_distinct, is_distinct→Distinct, arith, ◌==◌,
  if◌then◌else◌, nat_eq,
}
use csc512_distributed_syste.Prelude.Dict.{Dict, get, keys, get-eq-none}
use csc512_distributed_syste.Prelude.Text.{Text, text_eq, text_beq, text_beq_iff}
use csc512_distributed_syste.Security.Profiler.{
  Entry, file, dir, Directory, denied, end, item, is_hidden, fits, note_name, max_depth,
  scan_languages, scan_entry, detect_languages, has_name, has_entry, has_file, language_indicators,
}

-- The names that stand at most `levels` directories below a directory, by a path of directories that
-- can be listed and are not hidden.
mutual
  pub visible : ℕ → Directory → List Text
  visible levels denied = []
  visible levels end = []
  visible levels (item e rest) = visible_entry levels e ++ visible levels rest

  pub visible_entry : ℕ → Entry → List Text
  visible_entry levels (file name) = name ∷ []
  visible_entry zero (dir name content) = name ∷ []
  visible_entry (suc levels) (dir name content) =
      name ∷ (if is_hidden name then [] else visible levels content)

-- A name that a language is recognised by.
pub indicated : Dict Text (List Text) → Text → Text → Bool
indicated table lang name = elim (get lang table) [
  | none ↦ false
  | some indicators ↦ any (fits name) indicators
]

-- One turn of the loop over the languages.
noted : Text → List Text → Text → List Text → List Text
noted lang indicators name detected =
    if member lang detected
    then detected
    else if any (fits name) indicators
    then detected ++ lang ∷ []
    else detected

member-noted :
    (l lang : Text) (indicators : List Text) (name : Text) (detected : List Text)
    → member l (noted lang indicators name detected)
      ≡ member l detected || ((lang == l) && any (fits name) indicators)
unfolding noted member
member-noted l lang indicators name detected =
    ground (arith, member-append l detected (lang ∷ []), text_beq_iff lang l)

member-note_name :
    (l : Text) (table : Dict Text (List Text)) (name : Text) (detected : List Text)
    → Distinct (keys table)
    → member l (note_name table name detected) ≡ member l detected || indicated table l name
unfolding note_name indicated get keys noted
member-note_name l [] name detected h = ground arith
member-note_name l ((lang, indicators) ∷ table) name detected h =
    member-note_name l table name (noted lang indicators name detected) h.1
    ∙ rw (member-noted l lang indicators name detected)
        (ground (arith, get-eq-none lang table h.0, text_beq_iff lang l))

or_assoc : (a b c : Bool) → (a || b) || c ≡ a || (b || c)
or_assoc a b c = ground arith

module _ (table : Dict Text (List Text)) (distinct : Distinct (keys table)) (l : Text) where
  mutual
    unfolding scan_languages scan_entry visible visible_entry any

    member-scan_languages :
        (levels depth : ℕ) (content : Directory) (detected : List Text)
        → depth + levels ≡ max_depth
        → member l (scan_languages table depth content detected)
          ≡ member l detected || any (indicated table l) (visible levels content)
    member-scan_languages levels depth denied detected h = ground arith
    member-scan_languages levels depth end detected h = ground arith
    member-scan_languages levels depth (item e rest) detected h = ground (
      arith,
      member-scan_languages levels depth rest (scan_entry table depth e detected) h,
      member-scan_entry levels depth e detected h,
      any-append (indicated table l) (visible_entry levels e) (visible levels rest),
    )

    member-scan_entry :
        (levels depth : ℕ) (e : Entry) (detected : List Text)
        → depth + levels ≡ max_depth
        → member l (scan_entry table depth e detected)
          ≡ member l detected || any (indicated table l) (visible_entry levels e)
    member-scan_entry levels depth (file name) detected h =
        ground (arith, member-note_name l table name detected distinct)
    member-scan_entry zero depth (dir name content) detected h =
        ground (arith, member-note_name l table name detected distinct)
    member-scan_entry (suc levels) depth (dir name content) detected h = ground (
      arith,
      member-note_name l table name detected distinct,
      member-scan_languages levels (suc depth) content (note_name table name detected)
          (omega arith),
    )

languages_distinct : Distinct (keys language_indicators)
unfolding keys language_indicators is_distinct text_beq
languages_distinct = is_distinct→Distinct (keys language_indicators) refl

-- A language is detected exactly when a name that it is recognised by stands in the root or at most
-- three directories below it, by a path of directories that can be listed and are not hidden.
pub detect_languages_iff :
    (root : Directory) (lang : Text)
    → member lang (detect_languages root)
      ≡ any (indicated language_indicators lang) (visible 3 root)
unfolding detect_languages member
detect_languages_iff root lang =
    member-scan_languages language_indicators languages_distinct lang 3 0 root [] (omega arith)

mutual
  unfolding has_name has_entry visible visible_entry any

  has_name-visible :
      (names : List Text) (levels depth : ℕ) (content : Directory)
      → depth + levels ≡ max_depth
      → has_name names depth content ≡ any (λ n. member n names) (visible levels content)
  has_name-visible names levels depth denied h = refl
  has_name-visible names levels depth end h = refl
  has_name-visible names levels depth (item e rest) h = ground (
    arith,
    has_entry-visible names levels depth e h,
    has_name-visible names levels depth rest h,
    any-append (λ n. member n names) (visible_entry levels e) (visible levels rest),
  )

  has_entry-visible :
      (names : List Text) (levels depth : ℕ) (e : Entry)
      → depth + levels ≡ max_depth
      → has_entry names depth e ≡ any (λ n. member n names) (visible_entry levels e)
  has_entry-visible names levels depth (file name) h = ground arith
  has_entry-visible names zero depth (dir name content) h = ground arith
  has_entry-visible names (suc levels) depth (dir name content) h =
      ground (arith, has_name-visible names levels (suc depth) content (omega arith))

-- A file is found exactly when one of the names stands in the root or at most three directories
-- below it, by a path of directories that can be listed and are not hidden.
pub has_file_iff :
    (root : Directory) (names : List Text)
    → has_file root names ≡ any (λ n. member n names) (visible 3 root)
unfolding has_file
has_file_iff root names = has_name-visible names 3 0 root (omega arith)
