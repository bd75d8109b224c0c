-- ===== src/NativeBinary/Operands.antt =====
-- Registers/native_binary.cpp: where the bitwise operations take their operands, and the complement.
use virtual_processing_unit.Prelude.{
  ℕ, ◌-◌, ◌<◌, ◌%◌, ◌≡◌, ◌≢◌, refl, ap, ◌∙◌, sym, arith, true, false, some, ◌>>=◌, List, length,
  reverse,
}
use virtual_processing_unit.Bytes.{be_bytes, le_value, word_size, size_mod}
use virtual_processing_unit.Bytes.LittleEndian.{reverse-be_bytes, length-be_bytes8}
use virtual_processing_unit.Registers.{
  NumReg, x, ex, rx, rbp, rsp, rdi, rsi, get_num, set_num, is_num_reg, access_num,
}
use virtual_processing_unit.Registers.Aliasing.{
  RegsFit, capacity, get_num-set_num, get_num-set_num_ne, get_num-lt, home,
}
use virtual_processing_unit.Memory.{Machine, push, pop, swap_endian}
use virtual_processing_unit.Memory.Stack.RoundTrip.{IsStack, Room, pushed, push-Room, pop-push}
use virtual_processing_unit.Memory.Heap.{IsAllocated}
use virtual_processing_unit.Args.{ArgTuple, Host, att_to_reg_id}
use virtual_processing_unit.NativeMaths.{with_regs}
use virtual_processing_unit.MemorySymbols.Transfer.{Names, Names-pushed}
use virtual_processing_unit.NativeBinary.{BinaryOp, binary_op, b_binary, b_not}

-- The operation, once its left operand is taken off the stack.
b_binary-popped :
    (host : Host) (o : BinaryOp) (s t : Machine) (arg : ArgTuple) (id : ℕ) (reg : NumReg)
    (temp : List ℕ) (left v : ℕ)
    → att_to_reg_id arg s.mem ≡ some id
    → is_num_reg id ≡ true
    → access_num id ≡ some reg
    → pop (host.uninit word_size) true s ≡ some (temp, t)
    → le_value temp ≡ left
    → binary_op o left (get_num reg t.regs) ≡ some v
    → b_binary host o arg s ≡ some (with_regs t (set_num reg v t.regs))
unfolding b_binary
b_binary-popped host o s t arg id reg temp left v found is_num entry got value result =
    rw (found, is_num, got, entry, value, result) refl

-- A bitwise operation takes its left operand off the stack, where it was pushed, and its right
-- operand from the register that gets the result; the other registers are as before the push.
pub b_binary-push :
    (host : Host) (o : BinaryOp) (s : Machine) (arg : ArgTuple) (reg : NumReg) (left v : ℕ)
    → length (host.uninit word_size) ≡ word_size
    → IsStack s
    → IsAllocated s.mem
    → Room s word_size
    → Names s arg reg
    → left < size_mod
    → binary_op o left (get_num reg s.regs) ≡ some v
    → (s₁ t : Machine) × (push (be_bytes 8 left) false s ≡ some s₁)
      × (b_binary host o arg s₁ ≡ some t)
      × (t.regs ≡ set_num reg v s.regs)
      × (t.calling_tree ≡ s.calling_tree)
unfolding swap_endian
b_binary-push host o s arg reg left v size ok alloc_ok room names small result =
    let bytes = be_bytes 8 left in
    let lb = length-be_bytes8 left in
    let stored = push-Room bytes false s ok (omega (arith, lb)) (omega (arith, lb)) in
    let (t, got, regs, tree, cells) =
      pop-push bytes (host.uninit word_size) false true s ok (omega (arith, lb)) (omega (arith, lb))
        (size ∙ sym lb) in
    (
      pushed s bytes,
      with_regs t (set_num reg v t.regs),
      stored,
      b_binary-popped host o (pushed s bytes) t arg names.id reg (reverse bytes) left v
          (Names-pushed s arg reg bytes ok alloc_ok (omega (arith, lb)) names) names.is_num
          names.entry (rw stored at got) (reverse-be_bytes left small)
          (ap (λ r. binary_op o left (get_num reg r)) regs ∙ result),
      ap (set_num reg v) regs,
      tree,
    )

complement_twice :
    (n : NumReg) (v : ℕ)
    → v < capacity n
    → (size_mod - 1 - (size_mod - 1 - v) % capacity n) % capacity n ≡ v
complement_twice (x g) v h = omega arith
complement_twice (ex g) v h = omega arith
complement_twice (rx g) v h = omega arith
complement_twice rbp v h = omega arith
complement_twice rsp v h = omega arith
complement_twice rdi v h = omega arith
complement_twice rsi v h = omega arith

b_not-step :
    (s : Machine) (arg : ArgTuple) (reg : NumReg) (id : ℕ)
    → att_to_reg_id arg s.mem ≡ some id
    → is_num_reg id ≡ true
    → access_num id ≡ some reg
    → b_not arg s ≡ some (with_regs s (set_num reg (size_mod - 1 - get_num reg s.regs) s.regs))
unfolding b_not
b_not-step s arg reg id found is_num entry = rw (found, is_num, entry) refl

-- Two complements of a register give its value back, and change no other register.
pub b_not-b_not :
    (s : Machine) (arg : ArgTuple) (reg : NumReg)
    → RegsFit s.regs
    → Names s arg reg
    → (t : Machine) × ((b_not arg s >>= b_not arg) ≡ some t)
      × (get_num reg t.regs ≡ get_num reg s.regs)
      × ((n : NumReg) → home reg ≢ home n → get_num n t.regs ≡ get_num n s.regs)
      × (t.mem ≡ s.mem)
b_not-b_not s arg reg fits names =
    let v = size_mod - 1 - get_num reg s.regs in
    let s₁ = with_regs s (set_num reg v s.regs) in
    let w = size_mod - 1 - get_num reg s₁.regs in
    (
      with_regs s₁ (set_num reg w s₁.regs),
      rw (b_not-step s arg reg names.id names.found names.is_num names.entry)
          (b_not-step s₁ arg reg names.id names.found names.is_num names.entry),
      get_num-set_num reg w s₁.regs
          ∙ ap (λ (p : ℕ). (size_mod - 1 - p) % capacity reg) (get_num-set_num reg v s.regs)
          ∙ complement_twice reg (get_num reg s.regs) (get_num-lt reg s.regs fits),
      λ n ne. get_num-set_num_ne reg n w s₁.regs ne ∙ get_num-set_num_ne reg n v s.regs ne,
      refl,
    )
