-- ===== src/Security/Profiler.antt =====
-- security_toolkit/src/core/profiler.py: what a scan target is. The file system is a tree, in which a
-- directory may refuse to be listed; symbolic links are not modelled. Docker's answer, the
-- resolution of a path and the parts of a URL come from outside: they are arguments.
mod Indicators
pub mod Visible
pub mod Target
unfoldable pub use Indicators.{language_indicators}
use Prim.Native.Nat.{max}
use csc512_distributed_syste.Prelude.{
  ℕ, zero, suc, ◌+◌, ◌-◌, ◌*◌, Bool, true, false, ◌&&◌, ◌||◌, not, Option, none, some, List, [],
  ◌∷◌, ◌++◌, any, member, ltb, leb, ◌==◌, if◌then◌else◌, nat_eq,
}
use csc512_distributed_syste.Prelude.Dict.{Dict}
use csc512_distributed_syste.Prelude.Sort.{sorted}
use csc512_distributed_syste.Prelude.Text.{
  Text, codes, text_eq, starts_with, ends_with, is_space, strip,
}
use csc512_distributed_syste.Security.Report.{ScanMode, source, runtime}
use csc512_distributed_syste.Security.Plugin.{TargetProfile}

mutual
  pub data Entry : Type 0 where
    file : Text → Entry
    dir : Text → Directory → Entry

  -- What `list(directory.iterdir())` gives: a PermissionError, or the entries in order.
  pub data Directory : Type 0 where
    denied : Directory
    end : Directory
    item : Entry → Directory → Directory

unfoldable pub is_hidden : Text → Bool
is_hidden name = starts_with name (codes ".")

-- A pattern that begins with a star stands for an ending.
unfoldable pub fits : Text → Text → Bool
fits name [] = name == []
fits name (c ∷ rest) = if c == b'*' then ends_with name rest else name == c ∷ rest

-- The loop over the languages for one entry.
unfoldable pub note_name : Dict Text (List Text) → Text → List Text → List Text
unfolding fits
note_name [] name detected = detected
note_name ((lang, indicators) ∷ table) name detected = note_name table name (
    if member lang detected
    then detected
    else if any (fits name) indicators
    then detected ++ lang ∷ []
    else detected)

abbrev pub max_depth : ℕ
max_depth = 3

-- `_scan` of `_detect_languages`, at the entries of a directory at depth `depth`, and at one entry.
-- A directory below `max_depth` is not listed.
unfoldable mutual
  unfolding note_name is_hidden

  pub scan_languages : Dict Text (List Text) → ℕ → Directory → List Text → List Text
  scan_languages table depth denied detected = detected
  scan_languages table depth end detected = detected
  scan_languages table depth (item e rest) detected =
      scan_languages table depth rest (scan_entry table depth e detected)

  pub scan_entry : Dict Text (List Text) → ℕ → Entry → List Text → List Text
  scan_entry table depth (file name) detected = note_name table name detected
  scan_entry table depth (dir name content) detected =
      let noted = note_name table name detected in
      let below = scan_languages table (suc depth) content noted in
      if is_hidden name then noted else if ltb max_depth (suc depth) then noted else below

unfoldable pub detect_languages : Directory → List Text
unfolding scan_languages
detect_languages root = scan_languages language_indicators 0 root []

-- `_scan` of `_has_file`
unfoldable mutual
  unfolding is_hidden

  pub has_name : List Text → ℕ → Directory → Bool
  has_name names depth denied = false
  has_name names depth end = false
  has_name names depth (item e rest) = has_entry names depth e || has_name names depth rest

  pub has_entry : List Text → ℕ → Entry → Bool
  has_entry names depth (file name) = member name names
  has_entry names depth (dir name content) =
      let below = has_name names (suc depth) content in
      if member name names
      then true
      else if is_hidden name
      then false
      else if ltb max_depth (suc depth)
      then false
      else below

unfoldable pub has_file : Directory → List Text → Bool
unfolding has_name
has_file root names = has_name names 0 root
