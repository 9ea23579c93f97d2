-- ===== src/Cdup/Rows/Columns.antt =====
-- The slots of a row are columns of the matrix, and none is listed twice.
use csc512_distributed_syste.Prelude.{
  Bool, false, ℕ, suc, ◌≡◌, refl, ◌∙◌, true, ◌&&◌, ◌||◌, not, Option, none, some, List, [], ◌∷◌,
  ◌++◌, member, member-append, Distinct, Distinct-snoc, subset, subset-append, subset_self,
  subset-select, subset-member, arith, all, ◌==◌, inl, inr, Bool-cases, select, nat_eq,
}
use csc512_distributed_syste.Prelude.Sort.{sorted, all-sorted}
use csc512_distributed_syste.Prelude.Text.{Text, text_eq, text_beq_iff, text_leb, starts_with}
use csc512_distributed_syste.Cdup.Ir.{Kind, decl, assign, loop_head, Statement}
use csc512_distributed_syste.Cdup.Slots.{scopes, resolve_slot}
use csc512_distributed_syste.Cdup.Slots.Innermost.{IsIn, resolve_slot-IsIn}
use csc512_distributed_syste.Cdup.Rows.{
  no_note, branch_reconvergence, loop_entry, Lexer, Row, from_keys_loop, from_keys, make_row,
  option_list, resolve_constants, extract_literal_slots, expand_fields, read_name, read_names,
  declared_fields, field_prefix, Effects, decl_effects, assign_effects, loop_effects, effects,
  stmt_to_row,
}

pub subset-sorted : (xs index : List Text) → subset (sorted text_leb xs) index ≡ subset xs index
unfolding subset
subset-sorted xs index = all-sorted (λ x. member x index) text_leb xs

from_keys_loop-subset :
    (index seen xs : List Text)
    → subset (from_keys_loop seen xs) index ≡ subset seen index && subset xs index
unfolding from_keys_loop
from_keys_loop-subset index seen [] = unfold subset all in ground arith
from_keys_loop-subset index seen (x ∷ xs) = elim (Bool-cases (member x seen)) [
  | inl e ↦ rw e (
      from_keys_loop-subset index seen xs
      ∙ unfold subset all in ground (arith, subset-member x seen index))
  | inr e ↦ rw e (
      from_keys_loop-subset index (seen ++ x ∷ []) xs
      ∙ rw (subset-append seen (x ∷ []) index) (unfold subset all in ground arith))
]

from_keys_loop-Distinct : (seen xs : List Text) → Distinct seen → Distinct (from_keys_loop seen xs)
unfolding from_keys_loop
from_keys_loop-Distinct seen [] h = h
from_keys_loop-Distinct seen (x ∷ xs) h = elim (Bool-cases (member x seen)) [
  | inl e ↦ rw e (from_keys_loop-Distinct seen xs h)
  | inr e ↦ rw e (from_keys_loop-Distinct (seen ++ x ∷ []) xs (Distinct-snoc x seen e h))
]

member-from_keys_loop :
    (a : Text) (seen xs : List Text)
    → member a (from_keys_loop seen xs) ≡ member a seen || member a xs
unfolding from_keys_loop member
member-from_keys_loop a seen [] = ground arith
member-from_keys_loop a seen (x ∷ xs) = elim (Bool-cases (member x seen)) [
  | inl e ↦ rw e (ground (arith, member-from_keys_loop a seen xs, text_beq_iff x a))
  | inr e ↦
      rw e
        (ground (arith, member-from_keys_loop a (seen ++ x ∷ []) xs, member-append a seen (x ∷ [])))
]

-- `list(dict.fromkeys(l))` has the elements of `l`, each once.
pub from_keys_lem :
    (xs : List Text)
    → Distinct (from_keys xs) × ((a : Text) → member a (from_keys xs) ≡ member a xs)
unfolding from_keys member
from_keys_lem xs = (from_keys_loop-Distinct [] xs tt, λ a. member-from_keys_loop a [] xs)

module _ (slot_index : List Text) (scope_path : Text) where
  option_list-in : (o : Option Text) → IsIn slot_index o → subset (option_list o) slot_index ≡ true
  unfolding subset all
  option_list-in none h = refl
  option_list-in (some s) h = ground (arith, h)

  resolve_constants-in :
      (name : Text → ℕ → Text) (index : ℕ) (vs : List Text)
      → subset (resolve_constants name index vs scope_path slot_index) slot_index ≡ true
  unfolding resolve_constants
  resolve_constants-in name index [] = unfold subset all in refl
  resolve_constants-in name index (v ∷ vs) =
      let found = resolve_slot (name v index) scope_path slot_index in
      ground (
        arith,
        subset-append (option_list found)
            (resolve_constants name (suc index) vs scope_path slot_index) slot_index,
        option_list-in found (resolve_slot-IsIn (name v index) scope_path slot_index),
        resolve_constants-in name (suc index) vs,
      )

  extract_literal_slots-in :
      (lexer : Lexer) (raw : Text)
      → subset (extract_literal_slots lexer raw scope_path slot_index) slot_index ≡ true
  unfolding extract_literal_slots
  extract_literal_slots-in lexer raw = simp (subset-append, resolve_constants-in)

  expand_fields-in : (n : Text) → subset (expand_fields n scope_path slot_index) slot_index ≡ true
  unfolding expand_fields
  expand_fields-in n =
      subset-sorted _ slot_index ∙ subset-select _ slot_index slot_index (subset_self slot_index)

  read_name-in : (n : Text) → subset (read_name n scope_path slot_index) slot_index ≡ true
  unfolding read_name
  read_name-in n =
      go (resolve_slot n scope_path slot_index) (resolve_slot-IsIn n scope_path slot_index)
    where
      go :
          (o : Option Text)
          → IsIn slot_index o
          → subset
              (elim o [ some found ↦ found ∷ [] | none ↦ expand_fields n scope_path slot_index ])
              slot_index
            ≡ true
      go none h = expand_fields-in n
      go (some found) h = option_list-in (some found) h

  read_names-in : (ns : List Text) → subset (read_names ns scope_path slot_index) slot_index ≡ true
  unfolding read_names
  read_names-in [] = unfold subset all in refl
  read_names-in (n ∷ ns) = simp (subset-append, read_name-in n, read_names-in ns)

  declared_fields-in :
      (n : Text) (candidates : List Text)
      → subset (declared_fields n slot_index candidates) slot_index ≡ true
  unfolding declared_fields
  declared_fields-in n [] = unfold subset all in refl
  declared_fields-in n (scope ∷ rest) =
      go (select (λ s. starts_with s (field_prefix scope n)) slot_index)
        (subset-select _ slot_index slot_index (subset_self slot_index))
        (declared_fields n slot_index rest) (declared_fields-in n rest)
    where
      go :
          (found : List Text)
          → subset found slot_index ≡ true
          → (later : List Text) → subset later slot_index ≡ true
          → subset (elim found [ [] ↦ later | m ∷ ms ↦ sorted text_leb (m ∷ ms) ]) slot_index ≡ true
      go [] h later k = k
      go (m ∷ ms) h later k = subset-sorted (m ∷ ms) slot_index ∙ h

  -- All that a statement touches is in the index.
  abbrev EffectsIn : Effects → Type 0
  EffectsIn e =
      (subset e.reads slot_index ≡ true)
      × (subset e.writes slot_index ≡ true)
      × (subset e.decls slot_index ≡ true)

  nothing_in : subset [] slot_index ≡ true
  unfolding subset all
  nothing_in = refl

  decl_effects-in :
      (reads : List Text) (n : Text)
      → subset reads slot_index ≡ true
      → EffectsIn (decl_effects reads n scope_path slot_index)
  unfolding decl_effects
  decl_effects-in reads n h =
      go (resolve_slot n scope_path slot_index) (resolve_slot-IsIn n scope_path slot_index)
    where
      fields : List Text
      fields = declared_fields n slot_index (scopes scope_path)

      go :
          (o : Option Text)
          → IsIn slot_index o
          → EffectsIn (elim o [
            | some scoped ↦ record { reads = reads; writes = scoped ∷ []; decls = scoped ∷ [] }
            | none ↦ record { reads = reads; writes = fields; decls = fields }
          ])
      go none k =
          (h, declared_fields-in n (scopes scope_path), declared_fields-in n (scopes scope_path))
      go (some scoped) k = (h, option_list-in (some scoped) k, option_list-in (some scoped) k)

  loop_effects-in :
      (reads : List Text) (n : Text)
      → subset reads slot_index ≡ true
      → EffectsIn (loop_effects reads n scope_path slot_index)
  unfolding loop_effects
  loop_effects-in reads n h =
      go (resolve_slot n scope_path slot_index) (resolve_slot-IsIn n scope_path slot_index)
    where
      go :
          (o : Option Text)
          → IsIn slot_index o
          → EffectsIn (elim o [
            | some scoped ↦ record {
              reads = select (λ r. not (r == scoped)) reads;
              writes = scoped ∷ [];
              decls = scoped ∷ [];
            }
            | none ↦ record { reads = reads; writes = []; decls = [] }
          ])
      go none k = (h, nothing_in, nothing_in)
      go (some scoped) k = (
        subset-select (λ r. not (r == scoped)) reads slot_index h,
        option_list-in (some scoped) k,
        option_list-in (some scoped) k,
      )

  effects-in :
      (kind : Kind) (reads : List Text) (l_name : Option Text)
      → subset reads slot_index ≡ true
      → EffectsIn (effects kind reads l_name scope_path slot_index)
  unfolding effects
  effects-in kind reads none h = (h, nothing_in, nothing_in)
  effects-in kind reads (some []) h = (h, nothing_in, nothing_in)
  effects-in decl reads (some (c ∷ n)) h = decl_effects-in reads (c ∷ n) h
  effects-in assign reads (some (c ∷ n)) h =
      unfold assign_effects in
      (
        h,
        option_list-in (resolve_slot (c ∷ n) scope_path slot_index)
            (resolve_slot-IsIn (c ∷ n) scope_path slot_index),
        nothing_in,
      )
  effects-in loop_head reads (some (c ∷ n)) h = loop_effects-in reads (c ∷ n) h
  effects-in _ reads (some (c ∷ n)) h = (h, nothing_in, nothing_in)

-- A row that joins branches writes a slot, and the phi row of a loop has a scope.
abbrev pub is_attached : Row → Bool
is_attached row = elim row.note [
  | no_note ↦ true
  | branch_reconvergence ↦ elim row.writes [ [] ↦ false | slot ∷ slots ↦ true ]
  | loop_entry ↦ elim row.scope_path [ none ↦ false | some scope ↦ true ]
]

-- A row of the matrix whose reads are slots: they, the writes and the declarations are columns, none is
-- listed twice, and a phi row of a loop has a scope.
pub record IsRow (slot_index : List Text) (row : Row) : Type 0 where
  pub reads_in : subset row.reads slot_index ≡ true
  pub writes_in : subset row.writes slot_index ≡ true
  pub decls_in : subset row.decls slot_index ≡ true
  pub reads_once : Distinct row.reads
  pub writes_once : Distinct row.writes
  pub decls_once : Distinct row.decls
  pub attached : is_attached row ≡ true

pub from_keys-subset : (xs index : List Text) → subset (from_keys xs) index ≡ subset xs index
unfolding from_keys subset all
from_keys-subset xs index = from_keys_loop-subset index [] xs

-- The row of any statement, in any scope, mentions columns only, each once in its list, and is no phi
-- row of a loop without a scope.
pub stmt_to_row-IsRow :
    (lexer : Lexer) (stmt : Statement) (seg_id : ℕ) (scope_path : Text) (slot_index : List Text)
    → IsRow slot_index (stmt_to_row lexer stmt seg_id scope_path slot_index)
unfolding stmt_to_row make_row
stmt_to_row-IsRow lexer stmt seg_id scope_path slot_index =
    let reads =
      read_names stmt.r_names scope_path slot_index
      ++ extract_literal_slots lexer stmt.raw scope_path slot_index in
    let e = effects stmt.kind reads stmt.l_name scope_path slot_index in
    let (r, w, d) =
      effects-in slot_index scope_path stmt.kind reads stmt.l_name
        (simp (subset-append, read_names-in, resolve_constants-in)) in
    record {
      reads_in = from_keys-subset e.reads slot_index ∙ r;
      writes_in = from_keys-subset e.writes slot_index ∙ w;
      decls_in = from_keys-subset e.decls slot_index ∙ d;
      reads_once = (from_keys_lem e.reads).0;
      writes_once = (from_keys_lem e.writes).0;
      decls_once = (from_keys_lem e.decls).0;
      attached = refl;
    }
