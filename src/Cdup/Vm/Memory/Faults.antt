-- ===== src/Cdup/Vm/Memory/Faults.antt =====
-- Reads and writes of the memory of cdup/src/vm.py.
use csc512_distributed_syste.Prelude.{
  ℕ, ◌≡◌, refl, false, Option, none, some, ◌==◌, nat_eq, Bool-cases, inl, inr,
}
use csc512_distributed_syste.Prelude.Dict.{get, put, get-put_self}
use csc512_distributed_syste.Prelude.Text.{Text, text_eq}
use csc512_distributed_syste.Cdup.Vm.Memory.{
  Value, Cell, Variable, Frame, Memory, Access, done, null_pointer, invalid_read, invalid_write,
  missing_slot, slot_at, heap_read, heap_write,
}

-- What a write does, where a read of the same address comes to an end, and what is read after it: it
-- fails with the same error, but that the message for an address that is not mapped tells a write from
-- a read; or it succeeds, and the address reads as what was written.
abbrev pub Matches : ℕ → Value → Access Value → Access Memory → Type 0
Matches addr v (done old) r =
    (later : Memory) × ((r ≡ done later) × (heap_read addr later ≡ done v))
Matches addr v null_pointer r = r ≡ null_pointer
Matches addr v missing_slot r = r ≡ missing_slot
Matches addr v (invalid_read a) r = r ≡ invalid_write a
Matches addr v (invalid_write a) r = ⊥

module _ (addr : ℕ) (v : Value) (m : Memory) where
  abbrev IsMatched : Type 0
  IsMatched = Matches addr v (heap_read addr m) (heap_write addr v m)

  in_heap : (c : Cell) → addr == 0 ≡ false → get addr m.heap ≡ some c → IsMatched
  unfolding heap_write heap_read
  in_heap c e h =
      let later : Memory = record m { heap = put addr (record c { value = v }) m.heap } in
      rw (e, h)
        (
          later,
          (refl, (let got = get-put_self addr (record c { value = v }) m.heap in rw (e, got) refl)),
        )

  module _ (e : addr == 0 ≡ false) (h : get addr m.heap ≡ none) where
    in_slot :
        (i : ℕ) (x : Text) (frame : Frame) (w : Variable)
        → get addr m.addr_map ≡ some (i, x)
        → get i m.frames ≡ some frame
        → get x frame ≡ some w
        → IsMatched
    unfolding heap_write heap_read slot_at
    in_slot i x frame w k g f =
        let changed : Frame = put x (record w { value = v }) frame in
        let later : Memory = record m { frames = put i changed m.frames } in
        let there = get-put_self i changed m.frames in
        let slot = get-put_self x (record w { value = v }) frame in
        rw (e, h, k, slot_at, g, f) (later, (refl, rw (e, h, k, slot_at, there, slot) refl))

    in_frame :
        (i : ℕ) (x : Text) (frame : Frame)
        → get addr m.addr_map ≡ some (i, x)
        → get i m.frames ≡ some frame
        → (o : Option Variable) → get x frame ≡ o
        → IsMatched
    unfolding heap_write heap_read slot_at
    in_frame i x frame k g none f = rw (e, h, k, slot_at, g, f) refl
    in_frame i x frame k g (some w) f = in_slot i x frame w k g f

    at_slot :
        (i : ℕ) (x : Text)
        → get addr m.addr_map ≡ some (i, x)
        → (o : Option Frame) → get i m.frames ≡ o
        → IsMatched
    unfolding heap_write heap_read slot_at
    at_slot i x k none g = rw (e, h, k, slot_at, g) refl
    at_slot i x k (some frame) g = in_frame i x frame k g (get x frame) refl

    at_address : (o : Option (ℕ × Text)) → get addr m.addr_map ≡ o → IsMatched
    unfolding heap_write heap_read
    at_address none k = rw (e, h, k) refl
    at_address (some at) k = at_slot at.0 at.1 k (get at.0 m.frames) refl

  -- A write fails exactly where a read of the address does: with the error for a null pointer or a slot
  -- that is gone where the read raises it, with `Invalid write` at the address where the read raises
  -- `Invalid read` there. Where the read succeeds, so does the write, and the address then reads as
  -- what was written, in the heap and in a slot of a frame.
  pub heap_write-Matches : Matches addr v (heap_read addr m) (heap_write addr v m)
  unfolding heap_write heap_read
  heap_write-Matches = elim (Bool-cases (addr == 0)) [
    | inl e ↦ rw e refl
    | inr e ↦ in_memory e (get addr m.heap) refl
  ]
    where
      in_memory : addr == 0 ≡ false → (o : Option Cell) → get addr m.heap ≡ o → IsMatched
      in_memory e none h = at_address e h (get addr m.addr_map) refl
      in_memory e (some c) h = in_heap c e h
