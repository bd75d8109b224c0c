-- ===== src/Memory/Stack/Invariant.antt =====
-- `memory::push` and `memory::pop` on a well-formed stack: well-formedness after them, and the frame.
use virtual_processing_unit.Prelude.{
  ℕ, suc, ◌+◌, ◌≤◌, ◌<◌, ◌^◌, ◌≡◌, refl, ◌∙◌, arith, Bool, some, List, length,
}
use native.Mathlib.Decide.{dec_lt}
use virtual_processing_unit.Memory.{Machine, swap_endian, push, pop}
use virtual_processing_unit.Memory.Stack.{
  block, length-block, fill-above, fill-below, clear-below, clear-above,
}
use virtual_processing_unit.Memory.Stack.RoundTrip.{
  IsStack, pushed, popped, length-swap_endian, push-Room, push-full, pop-Holds, pop-empty,
}

-- On a well-formed stack a push never leaves the memory, and keeps the stack well-formed and the
-- cells above its top and at or below its end.
pub push-IsStack :
    (bytes : List ℕ) (swap : Bool) (s : Machine)
    → IsStack s
    → 0 < length bytes
    → length bytes < 2 ^ 63
    → (t : Machine) × (push bytes swap s ≡ some t)
      × IsStack t
      × ((a : ℕ)
          → (s.regs.rsp < a → t.mem.cells a ≡ s.mem.cells a)
            × (a ≤ s.regs.rsend → t.mem.cells a ≡ s.mem.cells a))
push-IsStack bytes swap s ok pos small = elim (dec_lt s.regs.rsp (s.regs.rsend + length bytes)) [
  | yes full ↦ (s, push-full bytes swap s ok small full, ok, λ a. (λ h. refl, λ h. refl))
  | no room ↦
      let size = length-swap_endian swap bytes in
      (
        pushed s (swap_endian swap bytes),
        push-Room bytes swap s ok (omega arith) pos,
        omega (arith, size),
        λ a. (
          fill-above s.mem.cells s.regs.rsp (swap_endian swap bytes) a,
          λ h. fill-below s.mem.cells s.regs.rsp (swap_endian swap bytes) a (omega (arith, size)),
        ),
      )
]

-- The same for a pop, which keeps the cells at or below the old top and above the base.
pub pop-IsStack :
    (data' : List ℕ) (swap : Bool) (s : Machine)
    → IsStack s
    → length data' < 2 ^ 63
    → (bytes : List ℕ) × (t : Machine) × (pop data' swap s ≡ some (bytes, t))
      × IsStack t
      × (length bytes ≡ length data')
      × ((a : ℕ)
          → (a ≤ s.regs.rsp → t.mem.cells a ≡ s.mem.cells a)
            × (s.regs.rbp < a → t.mem.cells a ≡ s.mem.cells a))
pop-IsStack data' swap s ok small = elim (dec_lt s.regs.rbp (s.regs.rsp + length data')) [
  | yes empty ↦
      (data', s, pop-empty data' swap s ok small empty, ok, refl, λ a. (λ h. refl, λ h. refl))
  | no holds ↦ (
    swap_endian swap (block s.mem.cells (s.regs.rsp + length data') (length data')),
    popped s (length data'),
    pop-Holds data' swap s ok (omega arith),
    omega arith,
    length-swap_endian swap _ ∙ length-block s.mem.cells (s.regs.rsp + length data') (length data'),
    λ a. (
      λ h. clear-below s.mem.cells (suc s.regs.rsp) (length data') a (omega arith),
      λ h. clear-above s.mem.cells (suc s.regs.rsp) (length data') a (omega arith),
    ),
  )
]
