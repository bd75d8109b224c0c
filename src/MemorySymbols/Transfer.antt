-- ===== src/MemorySymbols/Transfer.antt =====
-- Actions/memory_symbols.cpp, `pushMem` and `popMem`: what a register gets from another by way of
-- the stack.
use virtual_processing_unit.Prelude.{
  ℕ, suc, ◌+◌, ◌≤◌, ◌<◌, ◌%◌, ◌≡◌, refl, ap, ◌∙◌, arith, true, false, Option, none, some, ◌>>=◌,
  List, length, reverse, ltb, lt→ltb, if◌then◌else◌,
}
use virtual_processing_unit.Bytes.{be_bytes, le_value, word_size, size_mod}
use virtual_processing_unit.Bytes.LittleEndian.{reverse-be_bytes, length-be_bytes8}
use virtual_processing_unit.Registers.{
  NumReg, x, ex, rx, rbp, rsp, rdi, rsi, get_num, set_num, is_num_reg, access_num,
}
use virtual_processing_unit.Registers.Aliasing.{RegsFit, capacity, get_num-lt}
use virtual_processing_unit.Memory.{Machine, push, pop, swap_endian}
use virtual_processing_unit.Memory.Stack.{fill-below}
use virtual_processing_unit.Memory.Stack.RoundTrip.{IsStack, Room, pushed, push-Room, pop-push}
use virtual_processing_unit.Memory.Heap.{IsAllocated, InRange}
use virtual_processing_unit.Args.{ArgTuple, zeroed, att_to_reg_id}
use virtual_processing_unit.Args.Stored.{att_to_reg_id-frame}
use virtual_processing_unit.NativeMaths.{with_regs}
use virtual_processing_unit.MemorySymbols.{transfer_size, push_mem, pop_mem}

-- The argument lies in the memory, below the stack, and names a number register.
pub record Names (s : Machine) (arg : ArgTuple) (reg : NumReg) : Type 0 where
  pub id : ℕ
  pub found : att_to_reg_id arg s.mem ≡ some id
  pub is_num : is_num_reg id ≡ true
  pub entry : access_num id ≡ some reg
  pub in_range : InRange s.mem arg.vaddr word_size
  pub below : arg.vaddr + word_size ≤ suc s.regs.rsend

push_mem-Names :
    (s : Machine) (arg : ArgTuple) (reg : NumReg)
    → Names s arg reg
    → transfer_size arg.vopt ≡ word_size
    → push_mem arg s ≡ push (be_bytes 8 (get_num reg s.regs % size_mod)) false s
unfolding push_mem
push_mem-Names s arg reg names whole = rw (names.found, names.is_num, names.entry, whole) refl

pop_mem-Names :
    (s : Machine) (arg : ArgTuple) (id : ℕ) (reg : NumReg)
    → att_to_reg_id arg s.mem ≡ some id
    → is_num_reg id ≡ true
    → access_num id ≡ some reg
    → pop_mem arg s ≡ (
        pop (zeroed (transfer_size arg.vopt)) true s >>= λ (temp, s').
        if ltb (transfer_size arg.vopt) word_size
        then none
        else some (with_regs s' (set_num reg (le_value temp) s'.regs)))
unfolding pop_mem
pop_mem-Names s arg id reg found is_num entry = rw (found, is_num, entry) refl

-- A `pop` of less than a word into a number register always reads behind its buffer.
pub pop_mem-narrow :
    (s : Machine) (arg : ArgTuple) (reg : NumReg)
    → Names s arg reg
    → transfer_size arg.vopt < word_size
    → pop_mem arg s ≡ none
pop_mem-narrow s arg reg names narrow =
    pop_mem-Names s arg names.id reg names.found names.is_num names.entry
    ∙ rw (lt→ltb (transfer_size arg.vopt) word_size narrow)
        (never (pop (zeroed (transfer_size arg.vopt)) true s))
  where
    never : (o : Option (List ℕ × Machine)) → ◌>>=◌ {B = Machine} o (λ _. none) ≡ none
    never none = refl
    never (some o) = refl

-- The argument still names the register after a push.
pub Names-pushed :
    (s : Machine) (arg : ArgTuple) (reg : NumReg) (bytes : List ℕ)
    → IsStack s
    → IsAllocated s.mem
    → Room s (length bytes)
    → (names : Names s arg reg) → att_to_reg_id arg (pushed s bytes).mem ≡ some names.id
Names-pushed s arg reg bytes ok alloc_ok room names =
    att_to_reg_id-frame arg s.mem (pushed s bytes).mem alloc_ok
      (record { zone = alloc_ok.zone; small = alloc_ok.small }) names.in_range names.in_range
      (λ a p q. fill-below s.mem.cells s.regs.rsp bytes a (omega arith))
    ∙ names.found

small_mod : (n : NumReg) (v : ℕ) → v < capacity n → v % size_mod ≡ v
small_mod (x g) v h = omega arith
small_mod (ex g) v h = omega arith
small_mod (rx g) v h = omega arith
small_mod rbp v h = omega arith
small_mod rsp v h = omega arith
small_mod rdi v h = omega arith
small_mod rsi v h = omega arith

-- A `pop` of a word into a register that gets these bytes.
pop_mem-word :
    (s t : Machine) (arg : ArgTuple) (id : ℕ) (reg : NumReg) (temp : List ℕ) (v : ℕ)
    → att_to_reg_id arg s.mem ≡ some id
    → is_num_reg id ≡ true
    → access_num id ≡ some reg
    → transfer_size arg.vopt ≡ word_size
    → pop (zeroed 8) true s ≡ some (temp, t)
    → le_value temp ≡ v
    → pop_mem arg s ≡ some (with_regs t (set_num reg v t.regs))
pop_mem-word s t arg id reg temp v found is_num entry whole got value =
    pop_mem-Names s arg id reg found is_num entry ∙ rw (whole, got, value) refl

-- What a `push` of a register puts on the stack, a `pop` puts into another register: the target
-- gets the value, and no other register changes.
pub pop_mem-push_mem :
    (s : Machine) (from to : ArgTuple) (src dest : NumReg)
    → IsStack s
    → IsAllocated s.mem
    → RegsFit s.regs
    → Room s word_size
    → Names s from src
    → Names s to dest
    → transfer_size from.vopt ≡ word_size
    → transfer_size to.vopt ≡ word_size
    → (t : Machine) × ((push_mem from s >>= pop_mem to) ≡ some t)
      × (t.regs ≡ set_num dest (get_num src s.regs) s.regs)
      × (t.calling_tree ≡ s.calling_tree)
      × ((a : ℕ) → s.regs.rsp < a → t.mem.cells a ≡ s.mem.cells a)
unfolding swap_endian
pop_mem-push_mem s from to src dest ok alloc_ok fits room names names' whole whole' =
    let bytes = be_bytes 8 (get_num src s.regs % size_mod) in
    let size = length-be_bytes8 (get_num src s.regs % size_mod) in
    let stored = push-Room bytes false s ok (omega (arith, size)) (omega (arith, size)) in
    let (t, popped_back, regs, tree, cells) =
      pop-push bytes (zeroed 8) false true s ok (omega (arith, size)) (omega (arith, size))
        (omega (arith, size)) in
    let value : get_num src s.regs % size_mod ≡ get_num src s.regs =
      small_mod src (get_num src s.regs) (get_num-lt src s.regs fits) in
    (
      with_regs t (set_num dest (get_num src s.regs) t.regs),
      rw (push_mem-Names s from src names whole ∙ stored) (
          pop_mem-word (pushed s bytes) t to names'.id dest (reverse bytes) (get_num src s.regs)
            (Names-pushed s to dest bytes ok alloc_ok (omega (arith, size)) names') names'.is_num
            names'.entry whole' (rw stored at popped_back)
            (reverse-be_bytes (get_num src s.regs % size_mod) (omega arith) ∙ value)),
      ap (set_num dest (get_num src s.regs)) regs,
      tree,
      λ a. (cells a).1,
    )
