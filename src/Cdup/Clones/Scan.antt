-- ===== src/Cdup/Clones/Scan.antt =====
-- The scan of `detect_clones` of cdup/src/detect.py for runs of equal statements.
pub mod Counts
pub mod Runs
pub mod Exact
pub mod Index
pub mod Reported
pub mod Frequency
use csc512_distributed_syste.Prelude.{
  ℕ, zero, suc, ◌+◌, ◌-◌, Bool, true, false, ◌&&◌, not, Option, none, some, List, [], ◌∷◌, ◌++◌,
  map, member, select, length, get_elem?, leb, ◌==◌, nat_eq, if◌then◌else◌,
}
use csc512_distributed_syste.Prelude.Dict.{Dict, get_or, put}
use csc512_distributed_syste.Prelude.Text.{Text, text_eq}

-- An entry of `flat`: `norm` is compared, `norm1` is the norm of Type I.
pub record Entry : Type 0 where
  pub seg_id : ℕ
  pub stmt_idx : ℕ
  pub norm : Text
  pub norm1 : Text

-- `flat`: the statements of all segments, and `none` after each segment.
abbrev pub Flat : Type 0
Flat = List (Option Entry)

-- The positions of each norm, from the `i`-th entry on.
unfoldable pub index_entries : ℕ → Flat → Dict Text (List ℕ) → Dict Text (List ℕ)
index_entries i [] index = index
index_entries i (none ∷ flat) index = index_entries (suc i) flat index
index_entries i (some e ∷ flat) index =
    index_entries (suc i) flat (put e.norm (get_or e.norm [] index ++ i ∷ []) index)

unfoldable pub inverted_index : ℕ → Flat → Dict Text (List ℕ)
unfolding index_entries
inverted_index max_freq flat =
    let index = index_entries 0 flat [] in
    if leb 1 max_freq then select (λ e. leb (length e.1) max_freq) index else index

-- A run of equal statements: where it begins, where its copy begins, and its length.
abbrev pub Run : Type 0
Run = ℕ × (ℕ × ℕ)

pub record Scan : Type 0 where
  pub active : Dict ℕ ℕ
  pub completed : List Run

unfoldable pub is_entry : Flat → ℕ → Bool
is_entry flat i = elim (get_elem? flat i) [
  | none ↦ false
  | some x ↦ elim x [ none ↦ false | some e ↦ true ]
]

-- A statement equal to the current one. The state is the active clones and the offsets of the current
-- statement's equals.
unfoldable pub advance_match : Flat → ℕ → ℕ → Dict ℕ ℕ × List ℕ → Dict ℕ ℕ × List ℕ
unfolding is_entry
advance_match flat current m s =
    if leb m current
    then s
    else if is_entry flat m
    then (put (m - current) (get_or (m - current) 0 s.0 + 1) s.0, s.1 ++ (m - current) ∷ [])
    else s

unfoldable pub advance : Flat → ℕ → List ℕ → Dict ℕ ℕ × List ℕ → Dict ℕ ℕ × List ℕ
unfolding advance_match
advance flat current [] s = s
advance flat current (m ∷ matches) s = advance flat current matches (advance_match flat current m s)

-- The clones of at least the minimal length among those that end before the current statement.
unfoldable pub ended : ℕ → ℕ → Dict ℕ ℕ → List Run
ended min_length current active =
    map (λ e. (current - e.1, (current - e.1 + e.0, e.1))) (select (λ e. leb min_length e.1) active)

-- The turn of the loop at an entry of `flat`.
unfoldable pub scan_entry : Flat → Dict Text (List ℕ) → ℕ → ℕ → Option Entry → Scan → Scan
unfolding advance ended
scan_entry flat index min_length current none s = record {
  active = [];
  completed = s.completed ++ ended min_length current s.active;
}
scan_entry flat index min_length current (some e) s =
    let grown = advance flat current (get_or e.norm [] index) (s.active, []) in
    record {
      active = select (λ a. member a.0 grown.1) grown.0;
      completed =
          s.completed ++ ended min_length current (select (λ a. not (member a.0 grown.1)) grown.0);
    }

unfoldable pub scan_entries : Flat → Dict Text (List ℕ) → ℕ → ℕ → Flat → Scan → Scan
unfolding scan_entry
scan_entries flat index min_length current [] s = s
scan_entries flat index min_length current (x ∷ rest) s =
    scan_entries flat index min_length (suc current) rest
      (scan_entry flat index min_length current x s)

-- `completed_clones`
unfoldable pub completed_clones : ℕ → ℕ → Flat → List Run
unfolding scan_entries inverted_index ended
completed_clones min_length max_freq flat =
    let s =
      scan_entries flat (inverted_index max_freq flat) min_length 0 flat
        (record { active = []; completed = [] }) in
    s.completed ++ ended min_length (length flat) s.active
