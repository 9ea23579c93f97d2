-- ===== src/Cdup/Vm/Memory/Strings.antt =====
-- Strings and new cells in the memory of cdup/src/vm.py.
use csc512_distributed_syste.Prelude.{
  ℕ, zero, suc, ◌+◌, ◌/◌, ◌≤◌, ◌<◌, ◌≡◌, refl, ap, ◌∙◌, subst, max, true, false, not, some, [], ◌∷◌,
  all, length, ◌==◌, nat_eq, arith, Bool-cases, inl, inr, and_true,
}
use csc512_distributed_syste.Prelude.Dict.{Dict, get, put, get-put, get-put_self}
use csc512_distributed_syste.Prelude.Text.{Text, codes}
use csc512_distributed_syste.Cdup.Vm.Memory.{
  Value, int, Cell, Memory, done, ◌>>=◌, heap_read, fill_cells, alloc_heap, sizeof, string_cells,
  intern_string, is_null, strlen_loop, strlen,
}

get-put_other : (a b : ℕ) (c : Cell) (d : Dict ℕ Cell) → a < b → get a (put b c d) ≡ get a d
get-put_other a b c d h = ground (arith, get-put b a c d, h)

pub read_cell :
    (a : ℕ) (c : Cell) (m : Memory) → 1 ≤ a → get a m.heap ≡ some c → heap_read a m ≡ done c.value
unfolding heap_read
read_cell a c m h g = let e : a == 0 ≡ false = ground (arith, h) in rw (e, g) refl

string_cells-below :
    (a base : ℕ) (s : Text) (d : Dict ℕ Cell) → a < base → get a (string_cells base s d) ≡ get a d
unfolding string_cells
string_cells-below a base [] d h = get-put_other a base _ d h
string_cells-below a base (c ∷ s) d h =
    string_cells-below a (suc base) s _ (omega (arith, h)) ∙ get-put_other a base _ d h

abbrev char_cell : ℕ → Cell
char_cell c = record { value = int c; type = codes "char" }

strlen_loop-suc :
    (addr count turns : ℕ) (m : Memory) (v : Value)
    → heap_read (addr + count) m ≡ done v
    → is_null v ≡ false
    → strlen_loop addr count (suc turns) m ≡ strlen_loop addr (suc count) turns m
unfolding strlen_loop
strlen_loop-suc addr count turns m v h n =
    ap
      (λ r. r >>= λ w. elim (is_null w) [
        | true ↦ done count
        | false ↦ strlen_loop addr (suc count) turns m
      ])
      h
    ∙ ap (λ b. elim b [ true ↦ done count | false ↦ strlen_loop addr (suc count) turns m ]) n

strlen_loop-string_cells :
    (s : Text) (addr count turns : ℕ) (m : Memory) (d : Dict ℕ Cell)
    → m.heap ≡ string_cells (addr + count) s d
    → all (λ c. not (c == 0)) s ≡ true
    → length s < turns
    → 1 ≤ addr
    → strlen_loop addr count turns m ≡ done (count + length s)
unfolding strlen_loop string_cells all is_null
strlen_loop-string_cells s addr count zero m d h n t a = absurd (omega (arith, t))
strlen_loop-string_cells [] addr count (suc turns) m d h n t a =
    let got = ap (λ e. get (addr + count) e) h ∙ get-put_self (addr + count) (char_cell 0) d in
    rw (strlen_loop, read_cell (addr + count) (char_cell 0) m (omega (arith, a)) got)
      (ap done (omega arith))
strlen_loop-string_cells (c ∷ s) addr count (suc turns) m d h n t a =
    let here = addr + count in
    let grown : Dict ℕ Cell = put here (char_cell c) d in
    let got : get here m.heap ≡ some (char_cell c) =
      ap (λ e. get here e) h
      ∙ string_cells-below here (suc here) s grown (omega arith)
      ∙ get-put_self here (char_cell c) d in
    let parts = and_true (not (c == 0)) (all (λ k. not (k == 0)) s) n in
    let more : c == 0 ≡ false = ground (arith, parts.0) in
    let next : m.heap ≡ string_cells (addr + suc count) s grown =
      h ∙ ap (λ b. string_cells b s grown) (shift addr count) in
    strlen_loop-suc addr count turns m (int c)
      (read_cell here (char_cell c) m (omega (arith, a)) got) more
    ∙ strlen_loop-string_cells s addr (suc count) turns m grown next parts.1 (omega (arith, t)) a
    ∙ ap done (shift_sum count (length s))
  where
    shift : (n k : ℕ) → suc (n + k) ≡ n + suc k
    shift n k = omega arith

    shift_sum : (n k : ℕ) → suc n + k ≡ n + suc k
    shift_sum n k = omega arith

-- `strlen` of a string that was put into memory gives its length, if it has no null and at most
-- 100,000 characters, and the counter of the heap was not at the null address.
pub strlen-intern_string :
    (s : Text) (m : Memory)
    → all (λ c. not (c == 0)) s ≡ true
    → length s ≤ 100000
    → 1 ≤ m.heap_counter
    → strlen (intern_string s m).0 (intern_string s m).1 ≡ done (length s)
unfolding strlen intern_string string_cells
strlen-intern_string s m n l a =
    strlen_loop-string_cells s m.heap_counter 0 100001 (intern_string s m).1 m.heap
      (ap (λ b. string_cells b s m.heap) (omega arith)) n (omega (arith, l)) a
    ∙ ap done (omega arith)

fill_cells-below :
    (a base : ℕ) (c : Cell) (n : ℕ) (d : Dict ℕ Cell)
    → a < base
    → get a (fill_cells base c n d) ≡ get a d
unfolding fill_cells
fill_cells-below a base c zero d h = refl
fill_cells-below a base c (suc n) d h =
    fill_cells-below a (suc base) c n _ (omega (arith, h)) ∙ get-put_other a base c d h

fill_cells-in :
    (a base : ℕ) (c : Cell) (n : ℕ) (d : Dict ℕ Cell)
    → base ≤ a
    → a < base + n
    → get a (fill_cells base c n d) ≡ some c
unfolding fill_cells
fill_cells-in a base c zero d h k = absurd (omega (arith, h, k))
fill_cells-in a base c (suc n) d h k = elim (Bool-cases (a == base)) [
  | inl e ↦
      let same : base ≡ a = ground (arith, e) in
      subst (λ b. get b (fill_cells (suc base) c n (put base c d)) ≡ some c) same
        (fill_cells-below base (suc base) c n (put base c d) (omega arith) ∙ get-put_self base c d)
  | inr e ↦ fill_cells-in a (suc base) c n (put base c d) (ground (arith, e, h)) (omega (arith, k))
]

-- A new block lies behind all earlier ones: its cells, one for each whole element and one at least, can
-- be read and hold 0, and the counter stands behind it.
pub record IsBlock (n_bytes : ℕ) (elem_type : Text) (m n : Memory) : Type 0 where
  behind : n.heap_counter ≡ m.heap_counter + max 1 (n_bytes / sizeof elem_type)
  zeros : (a : ℕ) → m.heap_counter ≤ a → a < n.heap_counter → heap_read a n ≡ done (int 0)
  others : (a : ℕ) → a < m.heap_counter → get a n.heap ≡ get a m.heap

-- Allocation gives the address that the counter of the heap had, if that is not null, and a new block
-- from there on: one cell for each whole element and one at least, each reading as 0; the cells below
-- are as they were.
pub alloc_heap-IsBlock :
    (n_bytes : ℕ) (elem_type : Text) (m : Memory)
    → 1 ≤ m.heap_counter
    → ((alloc_heap n_bytes elem_type m).0 ≡ m.heap_counter)
      × IsBlock n_bytes elem_type m (alloc_heap n_bytes elem_type m).1
unfolding alloc_heap
alloc_heap-IsBlock n_bytes elem_type m h = (
  refl,
  record {
    behind = refl;
    zeros = λ a b c.
        read_cell a (record { value = int 0; type = elem_type }) (alloc_heap n_bytes elem_type m).1
          (omega (arith, b, h)) (fill_cells-in a m.heap_counter _ _ m.heap b c);
    others = λ a b.
        fill_cells-below a m.heap_counter (record { value = int 0; type = elem_type })
          (max 1 (n_bytes / sizeof elem_type)) m.heap b;
  },
)
