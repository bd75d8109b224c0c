-- ===== src/Memory/Stack/Order.antt =====
-- `memory::push` and `memory::pop`: the order of several values on the stack.
use virtual_processing_unit.Prelude.{
  ℕ, suc, ◌+◌, ◌-◌, ◌<◌, ◌≡◌, refl, ap, ◌∙◌, sym, arith, Bool, some, List, length,
}
use virtual_processing_unit.Memory.{Machine, push, pop, swap_endian}
use virtual_processing_unit.Memory.Stack.{
  block, block-congr, block-fill, fill, fill-above, clear, clear-above,
}
use virtual_processing_unit.Memory.Stack.RoundTrip.{
  IsStack, Room, Holds, pushed, popped, length-swap_endian, push-Room, pop-Holds,
}

-- These bytes lie on the top of the stack, the first at the highest address.
pub record OnTop (s : Machine) (bytes : List ℕ) : Type 0 where
  pub holds : Holds s (length bytes)
  pub lie : block s.mem.cells (s.regs.rsp + length bytes) (length bytes) ≡ bytes

pub pushed-OnTop :
    (s : Machine) (bytes : List ℕ)
    → IsStack s
    → Room s (length bytes)
    → IsStack (pushed s bytes) × OnTop (pushed s bytes) bytes
pushed-OnTop s bytes ok room = (
  omega arith,
  record {
    holds = omega arith;
    lie =
        ap (λ (a : ℕ). block (fill s.mem.cells s.regs.rsp bytes) a (length bytes)) back
        ∙ block-fill s.mem.cells s.regs.rsp bytes (omega arith);
  },
)
  where
    back : s.regs.rsp - length bytes + length bytes ≡ s.regs.rsp
    back = omega arith

-- A pop gives the bytes on the top, in the order that its flag asks for.
pub pop-OnTop :
    (s : Machine) (bytes data' : List ℕ) (swap : Bool)
    → IsStack s
    → OnTop s bytes
    → length data' ≡ length bytes
    → pop data' swap s ≡ some (swap_endian swap bytes, popped s (length bytes))
pop-OnTop s bytes data' swap ok on same =
    pop-Holds data' swap s ok (omega (arith, on.holds))
    ∙ ap (λ (n : ℕ). some (swap_endian swap (block s.mem.cells (s.regs.rsp + n) n), popped s n))
        same
    ∙ ap (λ bs. some (swap_endian swap bs, popped s (length bytes))) on.lie

-- Whatever is pushed and popped on top of other bytes leaves them there.
pub popped-OnTop :
    (s : Machine) (below bytes : List ℕ)
    → IsStack s
    → OnTop s below
    → Room s (length bytes)
    → IsStack (popped (pushed s bytes) (length bytes))
      × OnTop (popped (pushed s bytes) (length bytes)) below
popped-OnTop s below bytes ok on room = (
  omega arith,
  record {
    holds = omega (arith, on.holds);
    lie =
        ap (λ (a : ℕ). block after (a + length below) (length below)) back
        ∙ block-congr after s.mem.cells s.regs.rsp (s.regs.rsp + length below) (length below)
            (λ a h.
              clear-above filled (suc (s.regs.rsp - length bytes)) (length bytes) a (omega arith)
              ∙ fill-above s.mem.cells s.regs.rsp bytes a h)
            (omega arith)
        ∙ on.lie;
  },
)
  where
    filled : ℕ → ℕ
    filled = fill s.mem.cells s.regs.rsp bytes

    after : ℕ → ℕ
    after = clear filled (suc (s.regs.rsp - length bytes)) (length bytes)

    back : s.regs.rsp - length bytes + length bytes ≡ s.regs.rsp
    back = omega arith

two_pops :
    (s : Machine) (first second d e : List ℕ) (swap swap' : Bool)
    → IsStack s
    → Room s (length first + length second)
    → length d ≡ length second
    → length e ≡ length first
    → (s₃ s₄ : Machine) × (pop d swap (pushed (pushed s first) second)
        ≡ some (swap_endian swap second, s₃))
      × (pop e swap' s₃ ≡ some (swap_endian swap' first, s₄))
      × (s₄.regs ≡ s.regs)
      × (s₄.calling_tree ≡ s.calling_tree)
two_pops s first second d e swap swap' ok room same same' =
    let (ok₁, on₁) = pushed-OnTop s first ok (omega arith) in
    let (ok₂, on₂) = pushed-OnTop (pushed s first) second ok₁ (omega arith) in
    let (ok₃, on₃) = popped-OnTop (pushed s first) first second ok₁ on₁ (omega arith) in
    let s₃ = popped (pushed (pushed s first) second) (length second) in
    (
      s₃,
      popped s₃ (length first),
      pop-OnTop (pushed (pushed s first) second) second d swap ok₂ on₂ same,
      pop-OnTop s₃ first e swap' ok₃ on₃ same',
      ap (λ (v : ℕ). record s.regs { rsp = v }) (omega arith),
      refl,
    )

-- Two pushes and two pops: the bytes come back last first, each in the order that the flags ask
-- for, and the registers are as before.
pub pop-pop-push :
    (s : Machine) (first second d e : List ℕ) (f g swap swap' : Bool)
    → IsStack s
    → 0 < length first
    → 0 < length second
    → Room s (length first + length second)
    → length d ≡ length second
    → length e ≡ length first
    → (s₁ s₂ s₃ s₄ : Machine) × (push first f s ≡ some s₁)
      × (push second g s₁ ≡ some s₂)
      × (pop d swap s₂ ≡ some (swap_endian swap (swap_endian g second), s₃))
      × (pop e swap' s₃ ≡ some (swap_endian swap' (swap_endian f first), s₄))
      × (s₄.regs ≡ s.regs)
      × (s₄.calling_tree ≡ s.calling_tree)
pop-pop-push s first second d e f g swap swap' ok pos pos' room same same' =
    let size = length-swap_endian f first in
    let size' = length-swap_endian g second in
    let s₁ = pushed s (swap_endian f first) in
    let (ok₁, on₁) = pushed-OnTop s (swap_endian f first) ok (omega (arith, size)) in
    let (s₃, s₄, pop₁, pop₂, regs, tree) =
      two_pops s (swap_endian f first) (swap_endian g second) d e swap swap' ok
        (omega (arith, size, size')) (same ∙ sym size') (same' ∙ sym size) in
    (
      s₁,
      pushed s₁ (swap_endian g second),
      s₃,
      s₄,
      push-Room first f s ok (omega arith) pos,
      push-Room second g s₁ ok₁ (omega (arith, size)) pos',
      pop₁,
      pop₂,
      regs,
      tree,
    )
