-- ===== src/Cdup/Vm/Memory/Blocks.antt =====
-- Blocks of the memory of cdup/src/vm.py: what `memset` does to one.
use csc512_distributed_syste.Prelude.{
  ℕ, zero, suc, ◌+◌, ◌≤◌, ◌<◌, ◌≡◌, ◌≢◌, refl, sym, ◌∙◌, ap, subst, false, Option, none, some, ◌==◌,
  nat_eq, arith, Bool-cases, inl, inr,
}
use csc512_distributed_syste.Prelude.Dict.{get, put, get-put, get-put_self}
use csc512_distributed_syste.Cdup.Vm.Memory.{
  Value, Cell, Memory, done, heap_read, heap_write, memset,
}
use csc512_distributed_syste.Cdup.Vm.Memory.Strings.{read_cell}

-- The cells from `addr` on, `n` of them, hold the value, and nothing else of the heap has changed.
pub record IsFilled (addr : ℕ) (v : Value) (n : ℕ) (m later : Memory) : Type 0 where
  filled : (a : ℕ) → addr ≤ a → a < addr + n → heap_read a later ≡ done v
  below : (a : ℕ) → a < addr → get a later.heap ≡ get a m.heap
  behind : (a : ℕ) → addr + n ≤ a → get a later.heap ≡ get a m.heap

abbrev pub written : ℕ → Value → Cell → Memory → Memory
written addr v c m = record m { heap = put addr (record c { value = v }) m.heap }

pub heap_write-cell :
    (addr : ℕ) (v : Value) (c : Cell) (m : Memory)
    → 1 ≤ addr
    → get addr m.heap ≡ some c
    → heap_write addr v m ≡ done (written addr v c m)
unfolding heap_write
heap_write-cell addr v c m h g = let e : addr == 0 ≡ false = ground (arith, h) in rw (e, g) refl

pub get-written :
    (a addr : ℕ) (v : Value) (c : Cell) (m : Memory)
    → (addr == a) ≡ false
    → get a (written addr v c m).heap ≡ get a m.heap
get-written a addr v c m h = ground (arith, get-put addr a (record c { value = v }) m.heap, h)

-- The cells are there.
abbrev pub Mapped : ℕ → ℕ → Memory → Type 0
Mapped addr n m = (a : ℕ) → addr ≤ a → a < addr + n → get a m.heap ≢ none

pub Mapped-written :
    (addr base n : ℕ) (v : Value) (c : Cell) (m : Memory)
    → Mapped base (suc n) m
    → Mapped (suc base) n (written addr v c m)
Mapped-written addr base n v c m cells a b d e =
    let there = cells a (omega (arith, b)) (omega (arith, d)) in
    elim (Bool-cases (addr == a)) [
      | inl h ↦
          let same : addr ≡ a = ground (arith, h) in
          some-not_none (
            sym (get-put_self addr (record c { value = v }) m.heap)
            ∙ ap (λ k. get k (written addr v c m).heap) same
            ∙ e)
      | inr h ↦ there (sym (get-written a addr v c m h) ∙ e)
    ]
  where
    some-not_none : {x : Cell} → some x ≢ none
    some-not_none q = ground (arith, q)

pub cell_of : (o : Option Cell) → {p : Option Cell} → p ≡ o → p ≢ none → (c : Cell) × (p ≡ some c)
cell_of none e h = absurd (h e)
cell_of (some c) e h = (c, e)

-- `memset` over heap cells that are there, none of them at the null address, succeeds: each of them
-- then reads as the value, and the heap around them is unchanged.
pub memset-IsFilled :
    (addr : ℕ) (v : Value) (n : ℕ) (m : Memory)
    → 1 ≤ addr
    → Mapped addr n m
    → (later : Memory) × ((memset addr v n m ≡ done later) × IsFilled addr v n m later)
unfolding memset
memset-IsFilled addr v zero m h cells = (
  m,
  (
    refl,
    record {
      filled = λ a b c. absurd (omega (arith, b, c));
      below = λ a b. refl;
      behind = λ a b. refl;
    },
  ),
)
memset-IsFilled addr v (suc n) m h cells =
    let found = cell_of (get addr m.heap) refl (cells addr (omega arith) (omega arith)) in
    let here = written addr v found.0 m in
    let rest =
      memset-IsFilled (suc addr) v n here (omega (arith, h))
        (Mapped-written addr addr n v found.0 m cells) in
    (
      rest.0,
      (rw (heap_write-cell addr v found.0 m h found.1) rest.1.0, grown found.0 rest.0 rest.1.1),
    )
  where
    grown :
        (c : Cell) (later : Memory)
        → IsFilled (suc addr) v n (written addr v c m) later
        → IsFilled addr v (suc n) m later
    grown c later f = record {
      filled = λ a b d. elim (Bool-cases (addr == a)) [
        | inl e ↦
            let same : addr ≡ a = ground (arith, e) in
            subst (λ k. heap_read k later ≡ done v) same
              (read_cell addr (record c { value = v }) later h
                (f.below addr (omega arith) ∙ get-put_self addr (record c { value = v }) m.heap))
        | inr e ↦ f.filled a (ground (arith, e, b)) (omega (arith, d))
      ];
      below = λ a b. f.below a (omega (arith, b)) ∙ get-written a addr v c m (ground (arith, b));
      behind = λ a b. f.behind a (omega (arith, b)) ∙ get-written a addr v c m (ground (arith, b));
    }
