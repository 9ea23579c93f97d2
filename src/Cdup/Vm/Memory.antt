-- ===== src/Cdup/Vm/Memory.antt =====
-- The memory of the virtual machine of cdup/src/vm.py: the heap, the slots of the frames, which are
-- shared objects and stand under numbers, and the map from addresses to slots.
pub mod Faults
pub mod Strings
pub mod Blocks
pub mod Copies
use csc512_distributed_syste.Prelude.{
  ℕ, zero, suc, ◌+◌, ◌-◌, ◌/◌, max, Bool, true, false, ◌||◌, Option, none, some, List, [], ◌∷◌,
  member, length, ltb, ◌==◌, nat_eq, if◌then◌else◌,
}
use csc512_distributed_syste.Prelude.Dict.{Dict, get, get_or, put}
use csc512_distributed_syste.Prelude.Text.{Text, codes, text_eq, strip, ends_with}
use mathlib.Core.List.{reverse}
use csc512_distributed_syste.Cdup.Expr.Parser.{drop_while}

-- What a slot or a cell holds; the text of a float is what is printed of it.
pub data Value : Type 0 where
  int negative : ℕ → Value
  float string : Text → Value

pub record Cell : Type 0 where
  pub value : Value
  pub type : Text

pub record Variable : Type 0 where
  pub addr : ℕ
  pub value : Value
  pub type : Text

abbrev pub Frame : Type 0
Frame = Dict Text Variable

pub record Memory : Type 0 where
  pub stack_counter : ℕ
  pub heap_counter : ℕ
  pub heap : Dict ℕ Cell
  pub addr_map : Dict ℕ (ℕ × Text)
  pub frames : Dict ℕ Frame

-- What the constructor and `run` set.
abbrev pub empty_memory : Memory
empty_memory = record {
  stack_counter = 4096;
  heap_counter = 2147483648;
  heap = [];
  addr_map = [];
  frames = [];
}

-- `_sizeof`
unfoldable pub sizeof : Text → ℕ
unfolding drop_while
sizeof type_str =
    let t = strip (reverse (drop_while (λ c. c == b'*') (reverse (strip type_str)))) in
    if t == codes "char"
    then 1
    else if t == codes "short"
    then 2
    else if member t (codes "int" ∷ codes "unsigned" ∷ codes "long" ∷ codes "float" ∷ [])
    then 4
    else if t == codes "double" || t == codes "long long"
    then 8
    else 4

-- `_is_pointer_type`
unfoldable pub is_pointer_type : Option Text → Bool
is_pointer_type none = false
is_pointer_type (some t) = ends_with (strip t) (codes "*")

-- `_alloc_stack_slot`
unfoldable pub alloc_stack_slot : ℕ → Text → Value → Text → Memory → Memory
alloc_stack_slot frame name value type m = record m {
  stack_counter = suc m.stack_counter;
  addr_map = put m.stack_counter (frame, name) m.addr_map;
  frames =
      put frame
        (put name (record { addr = m.stack_counter; value = value; type = type })
          (get_or frame [] m.frames))
        m.frames;
}

-- `n` cells from an address on.
unfoldable pub fill_cells : ℕ → Cell → ℕ → Dict ℕ Cell → Dict ℕ Cell
fill_cells base cell zero heap = heap
fill_cells base cell (suc n) heap = fill_cells (suc base) cell n (put base cell heap)

-- `_alloc_heap`: the base address, and the memory.
unfoldable pub alloc_heap : ℕ → Text → Memory → ℕ × Memory
unfolding sizeof fill_cells
alloc_heap n_bytes elem_type m =
    let n = max 1 (n_bytes / sizeof elem_type) in
    (
      m.heap_counter,
      record m {
        heap = fill_cells m.heap_counter (record { value = int 0; type = elem_type }) n m.heap;
        heap_counter = m.heap_counter + n;
      },
    )

-- A result, or the error: a null pointer, a read or a write of an address that is not mapped, a slot
-- that is gone.
pub data Access {ℓ} (A : Type ℓ) : Type ℓ where
  done : A → Access A
  null_pointer missing_slot : Access A
  invalid_read invalid_write : ℕ → Access A

infixl 5 ◌>>=◌
abbrev pub ◌>>=◌ {ℓ κ} : {A : Type ℓ} {B : Type κ} → Access A → (A → Access B) → Access B
done a >>= f = f a
null_pointer >>= f = null_pointer
missing_slot >>= f = missing_slot
invalid_read addr >>= f = invalid_read addr
invalid_write addr >>= f = invalid_write addr

-- `frame[name]` of an entry of the map of addresses
unfoldable pub slot_at : ℕ × Text → Memory → Access (Frame × Variable)
slot_at at m = elim (get at.0 m.frames) [
  | none ↦ missing_slot
  | some frame ↦ elim (get at.1 frame) [ none ↦ missing_slot | some v ↦ done (frame, v) ]
]

-- `_heap_read` of an address
unfoldable pub heap_read : ℕ → Memory → Access Value
unfolding slot_at
heap_read addr m = if addr == 0 then null_pointer else elim (get addr m.heap) [
  | some c ↦ done c.value
  | none ↦ elim (get addr m.addr_map) [
    | none ↦ invalid_read addr
    | some at ↦ slot_at at m >>= λ p. done p.1.value
  ]
]

-- `_heap_write`
unfoldable pub heap_write : ℕ → Value → Memory → Access Memory
unfolding slot_at
heap_write addr value m = if addr == 0 then null_pointer else elim (get addr m.heap) [
  | some c ↦ done (record m { heap = put addr (record c { value = value }) m.heap })
  | none ↦ elim (get addr m.addr_map) [
    | none ↦ invalid_write addr
    | some at ↦ slot_at at m >>= λ p.
        done (record m { frames = put at.0 (put at.1 (record p.1 { value = value }) p.0) m.frames })
  ]
]

-- The cells of a string, with the null after it.
unfoldable pub string_cells : ℕ → Text → Dict ℕ Cell → Dict ℕ Cell
string_cells base [] heap = put base (record { value = int 0; type = codes "char" }) heap
string_cells base (c ∷ s) heap =
    string_cells (suc base) s (put base (record { value = int c; type = codes "char" }) heap)

-- `_intern_string`
unfoldable pub intern_string : Text → Memory → ℕ × Memory
unfolding string_cells
intern_string s m = (
  m.heap_counter,
  record m {
    heap = string_cells m.heap_counter s m.heap;
    heap_counter = m.heap_counter + length s + 1;
  },
)

unfoldable pub is_null : Value → Bool
is_null (int n) = n == 0
is_null (negative n) = n == 0
is_null (float x) = x == codes "0.0" || x == codes "-0.0"
is_null (string s) = false

-- The loop of `strlen`, with the turns that are left before it gives up.
unfoldable pub strlen_loop : ℕ → ℕ → ℕ → Memory → Access ℕ
unfolding heap_read is_null
strlen_loop addr count zero m = done count
strlen_loop addr count (suc turns) m = heap_read (addr + count) m >>= λ v. elim (is_null v) [
  | true ↦ done count
  | false ↦ strlen_loop addr (suc count) turns m
]

-- `strlen`: it stops when the count is past 100,000.
unfoldable pub strlen : ℕ → Memory → Access ℕ
unfolding strlen_loop
strlen addr m = strlen_loop addr 0 100001 m

-- The loop of `memset`.
unfoldable pub memset : ℕ → Value → ℕ → Memory → Access Memory
unfolding heap_write
memset dst v zero m = done m
memset dst v (suc n) m = heap_write dst v m >>= λ later. memset (suc dst) v n later

-- The loop of `memcpy`.
unfoldable pub memcpy : ℕ → ℕ → ℕ → Memory → Access Memory
unfolding heap_read heap_write
memcpy dst src zero m = done m
memcpy dst src (suc n) m =
    heap_read src m >>= λ v. heap_write dst v m >>= λ later. memcpy (suc dst) (suc src) n later

-- `_pointee_type`
unfoldable pub pointee_type : Text → Text
pointee_type ptr_type =
    let s = strip ptr_type in
    elim (ends_with s (codes "*")) [
      | true ↦ strip (reverse (elim (reverse s) [ [] ↦ [] | c ∷ r ↦ r ]))
      | false ↦ codes "int"
    ]

-- `_addr_type`
unfoldable pub addr_type : ℕ → Memory → Access Text
unfolding slot_at
addr_type addr m = elim (get addr m.heap) [
  | some c ↦ done c.type
  | none ↦ elim (get addr m.addr_map) [
    | none ↦ done (codes "int")
    | some at ↦ slot_at at m >>= λ p. done p.1.type
  ]
]

-- `_infer_type`, on the values that are no lists
unfoldable pub infer_type : Value → Text
infer_type (int n) = codes "int"
infer_type (negative n) = codes "int"
infer_type (float x) = codes "float"
infer_type (string s) = codes "char*"
