-- ===== src/Cdup/Vm/Examples.antt =====
-- Runs of the memory of cdup/src/vm.py on small inputs.
use csc512_distributed_syste.Prelude.{
  ℕ, ◌+◌, ◌≤◌, ◌<◌, ◌≡◌, ◌≢◌, refl, subst, none, [], ◌∷◌, inr, nat_eq, all, arith,
}
use csc512_distributed_syste.Prelude.Dict.{get, put, get_or}
use csc512_distributed_syste.Prelude.Text.{codes, text_beq}
use csc512_distributed_syste.Cdup.Vm.Memory.{
  int, Memory, done, empty_memory, alloc_heap, fill_cells, sizeof, alloc_stack_slot, heap_read,
  heap_write, intern_string, strlen, memset, memcpy,
}
use csc512_distributed_syste.Cdup.Vm.Memory.Faults.{Matches, heap_write-Matches}
use csc512_distributed_syste.Cdup.Vm.Memory.Strings.{
  IsBlock, alloc_heap-IsBlock, strlen-intern_string,
}
use csc512_distributed_syste.Cdup.Vm.Memory.Copies.{IsCopy, memcpy-IsCopy}
use csc512_distributed_syste.Cdup.Vm.Memory.Blocks.{IsFilled, memset-IsFilled}

strlen-intern_string_example :
    strlen (intern_string (codes "ab") empty_memory).0 (intern_string (codes "ab") empty_memory).1
    ≡ done 2
unfolding all
strlen-intern_string_example =
    strlen-intern_string (codes "ab") empty_memory refl (omega arith) (omega arith)

alloc_heap-IsBlock_example :
    ((alloc_heap 12 (codes "int") empty_memory).0 ≡ 2147483648)
    × IsBlock 12 (codes "int") empty_memory (alloc_heap 12 (codes "int") empty_memory).1
alloc_heap-IsBlock_example = alloc_heap-IsBlock 12 (codes "int") empty_memory (omega arith)

abbrev one_slot : Memory
one_slot = alloc_stack_slot 0 (codes "x") (int 1) (codes "int") empty_memory

heap_write-Matches_example :
    Matches 4096 (int 7) (heap_read 4096 one_slot) (heap_write 4096 (int 7) one_slot)
heap_write-Matches_example = heap_write-Matches 4096 (int 7) one_slot

read_slot : heap_read 4096 one_slot ≡ done (int 1)
unfolding heap_read alloc_stack_slot get put get_or text_beq
read_slot = refl

abbrev one_cell : Memory
one_cell = (alloc_heap 4 (codes "int") empty_memory).1

first : get 2147483648 one_cell.heap ≢ none
unfolding alloc_heap get put fill_cells sizeof
first e = ground (arith, e)

memset-IsFilled_example :
    (later : Memory) × ((memset 2147483648 (int 7) 1 one_cell ≡ done later)
      × IsFilled 2147483648 (int 7) 1 one_cell later)
memset-IsFilled_example = memset-IsFilled 2147483648 (int 7) 1 one_cell (omega arith) there
  where
    there : (a : ℕ) → 2147483648 ≤ a → a < 2147483648 + 1 → get a one_cell.heap ≢ none
    there a h k =
        let same : 2147483648 ≡ a = omega (arith, h, k) in
        subst (λ b. get b one_cell.heap ≢ none) same first

abbrev two_cells : Memory
two_cells = record empty_memory {
  heap =
      (2147483648, record { value = int 5; type = codes "int" })
      ∷ (2147483649, record { value = int 0; type = codes "int" })
      ∷ [];
}

source_there : get 2147483648 two_cells.heap ≢ none
unfolding get
source_there e = ground (arith, e)

destination_there : get 2147483649 two_cells.heap ≢ none
unfolding get
destination_there e = ground (arith, e)

memcpy-IsCopy_example :
    (later : Memory) × ((memcpy 2147483649 2147483648 1 two_cells ≡ done later)
      × IsCopy 2147483649 2147483648 1 two_cells later)
memcpy-IsCopy_example =
    memcpy-IsCopy 2147483649 2147483648 1 two_cells (omega arith) (omega arith) destination source
      (inr (omega arith))
  where
    source : (a : ℕ) → 2147483648 ≤ a → a < 2147483648 + 1 → get a two_cells.heap ≢ none
    source a h k =
        let same : 2147483648 ≡ a = omega (arith, h, k) in
        subst (λ b. get b two_cells.heap ≢ none) same source_there

    destination : (a : ℕ) → 2147483649 ≤ a → a < 2147483649 + 1 → get a two_cells.heap ≢ none
    destination a h k =
        let same : 2147483649 ≡ a = omega (arith, h, k) in
        subst (λ b. get b two_cells.heap ≢ none) same destination_there
