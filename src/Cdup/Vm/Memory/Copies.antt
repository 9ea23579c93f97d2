-- ===== src/Cdup/Vm/Memory/Copies.antt =====
-- Copies of blocks of the memory of cdup/src/vm.py: what `memcpy` does.
use csc512_distributed_syste.Prelude.{
  ℕ, zero, suc, ◌+◌, ◌≤◌, ◌<◌, ◌≡◌, ◌⊎◌, refl, ap, sym, ◌∙◌, false, some, ◌==◌, nat_eq, arith, inl,
  inr,
}
use csc512_distributed_syste.Prelude.Dict.{get, get-put_self}
use csc512_distributed_syste.Cdup.Vm.Memory.{Value, Cell, Memory, done, slot_at, heap_read, memcpy}
use csc512_distributed_syste.Cdup.Vm.Memory.Strings.{read_cell}
use csc512_distributed_syste.Cdup.Vm.Memory.Blocks.{
  written, heap_write-cell, get-written, Mapped, Mapped-written, cell_of,
}

-- The block at `dst` reads as the one at `src` did, and nothing else of the heap has changed.
pub record IsCopy (dst src n : ℕ) (m later : Memory) : Type 0 where
  copied : (k : ℕ) → k < n → heap_read (dst + k) later ≡ heap_read (src + k) m
  below : (a : ℕ) → a < dst → get a later.heap ≡ get a m.heap
  behind : (a : ℕ) → dst + n ≤ a → get a later.heap ≡ get a m.heap

read-written :
    (a addr : ℕ) (v : Value) (c : Cell) (m : Memory)
    → (addr == a) ≡ false
    → heap_read a (written addr v c m) ≡ heap_read a m
unfolding heap_read slot_at
read-written a addr v c m h = rw (get-written a addr v c m h) refl

-- A copy that goes upwards reads no cell that it has written: it starts below the source, or behind it.
abbrev Apart : ℕ → ℕ → ℕ → Type 0
Apart dst src n = (dst ≤ src) ⊎ (src + n ≤ dst)

Apart-suc : (dst src n : ℕ) → Apart dst src (suc n) → Apart (suc dst) (suc src) n
Apart-suc dst src n (inl h) = inl (omega (arith, h))
Apart-suc dst src n (inr h) = inr (omega (arith, h))

Apart-differs : (dst src n k : ℕ) → Apart dst src (suc n) → k < n → (dst == suc (src + k)) ≡ false
Apart-differs dst src n k (inl h) l = ground (arith, h, l)
Apart-differs dst src n k (inr h) l = ground (arith, h, l)

-- One cell of the copy, and the rest of it.
module _ (dst src n : ℕ) (c d : Cell) (m later : Memory) where
  abbrev first_copied : Memory
  first_copied = written dst c.value d m

  copied-suc :
      1 ≤ dst
      → 1 ≤ src
      → get src m.heap ≡ some c
      → Apart dst src (suc n)
      → IsCopy (suc dst) (suc src) n first_copied later
      → (k : ℕ) → k < suc n
      → heap_read (dst + k) later ≡ heap_read (src + k) m
  copied-suc h l g a f zero b =
      let here : get dst later.heap ≡ some (record d { value = c.value }) =
        f.below dst (omega arith) ∙ get-put_self dst (record d { value = c.value }) m.heap in
      ap (λ x. heap_read x later) (right_zero dst)
      ∙ read_cell dst (record d { value = c.value }) later h here
      ∙ sym (read_cell src c m l g)
      ∙ ap (λ x. heap_read x m) (sym (right_zero src))
    where
      right_zero : (x : ℕ) → x + 0 ≡ x
      right_zero x = omega arith
  copied-suc h l g a f (suc k) b =
      ap (λ x. heap_read x later) (shift dst k)
      ∙ f.copied k (omega (arith, b))
      ∙ read-written (suc src + k) dst c.value d m
          (ground (arith, Apart-differs dst src n k a (omega (arith, b))))
      ∙ ap (λ x. heap_read x m) (sym (shift src k))
    where
      shift : (x k : ℕ) → x + suc k ≡ suc x + k
      shift x k = omega arith

  IsCopy-suc :
      1 ≤ dst
      → 1 ≤ src
      → get src m.heap ≡ some c
      → Apart dst src (suc n)
      → IsCopy (suc dst) (suc src) n first_copied later
      → IsCopy dst src (suc n) m later
  IsCopy-suc h l g a f = record {
    copied = copied-suc h l g a f;
    below = λ x b. f.below x (omega (arith, b)) ∙ get-written x dst c.value d m (ground (arith, b));
    behind =
        λ x b. f.behind x (omega (arith, b)) ∙ get-written x dst c.value d m (ground (arith, b));
  }

-- `memcpy` between blocks of heap cells that are there, none at the null address, succeeds: the block at
-- the destination then reads as the source did before, also where they overlap if the destination starts
-- below, and the heap around the destination is unchanged.
pub memcpy-IsCopy :
    (dst src n : ℕ) (m : Memory)
    → 1 ≤ dst
    → 1 ≤ src
    → Mapped dst n m
    → Mapped src n m
    → Apart dst src n
    → (later : Memory) × ((memcpy dst src n m ≡ done later) × IsCopy dst src n m later)
unfolding memcpy
memcpy-IsCopy dst src zero m h l cells sources a = (
  m,
  (
    refl,
    record { copied = λ k b. absurd (omega (arith, b)); below = λ x b. refl; behind = λ x b. refl },
  ),
)
memcpy-IsCopy dst src (suc n) m h l cells sources a =
    let c = cell_of (get src m.heap) refl (sources src (omega arith) (omega arith)) in
    let d = cell_of (get dst m.heap) refl (cells dst (omega arith) (omega arith)) in
    let rest =
      memcpy-IsCopy (suc dst) (suc src) n (written dst c.0.value d.0 m) (omega (arith, h))
        (omega (arith, l)) (Mapped-written dst dst n c.0.value d.0 m cells)
        (Mapped-written dst src n c.0.value d.0 m sources) (Apart-suc dst src n a) in
    (
      rest.0,
      (
        rw (read_cell src c.0 m l c.1, heap_write-cell dst c.0.value d.0 m h d.1) rest.1.0,
        IsCopy-suc dst src n c.0 d.0 m rest.0 h l c.1 a rest.1.1,
      ),
    )
