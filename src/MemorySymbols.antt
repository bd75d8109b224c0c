-- ===== src/MemorySymbols.antt =====
-- Memory/memory_symbols.cpp: the actions between registers and memory.
pub mod Transfer
use virtual_processing_unit.Prelude.{
  ℕ, zero, suc, ◌+◌, ◌-◌, ◌*◌, ◌/◌, ◌%◌, ◌^◌, Bool, true, false, Option, none, some, ◌>>=◌, List,
  [], ◌∷◌, ltb, ◌==◌, if◌then◌else◌, get_or,
}
use virtual_processing_unit.Bytes.{size_mod, word_size, vopt_to_tq, be_bytes, le_value}
use virtual_processing_unit.Registers.{
  Regs, NumReg, rx, la, get_num, set_num, is_num_reg, access_num,
}
use virtual_processing_unit.Memory.{Memory, Machine, push, pop, ms, mg}
use virtual_processing_unit.Floats.{
  widen, narrow, FloatUnit, FpReg, Reg, num, chr, fp, access, get_fp, set_fp, long_double_size,
}
use virtual_processing_unit.Args.{ArgTuple, Host, zeroed, att_to_reg_id}
use virtual_processing_unit.NativeMaths.{with_regs}

abbrev pub with_mem : Machine → Memory → Machine
with_mem s m = record s { mem = m }

-- `temp_sz`: the size that the optional byte asks for, a whole word by default.
unfoldable pub transfer_size : ℕ → ℕ
transfer_size vopt = let qt_det = vopt_to_tq vopt in if qt_det == 0 then word_size else qt_det

-- The actions on a number register begin with the same lines.
abbrev pub with_num_reg : ArgTuple → Machine → (NumReg → Option Machine) → Option Machine
with_num_reg arg s body = do
  reg_id ← att_to_reg_id arg s.mem
  if is_num_reg reg_id then access_num reg_id >>= body else some s

-- `sdzsMem`.
unfoldable pub sdzs_mem : ArgTuple → Machine → Option Machine
sdzs_mem arg s =
    if s.regs.exec_level == 0
    then with_num_reg arg s (λ reg. some (with_regs s (set_num reg s.mem.sdzsize s.regs)))
    else some s

-- `pushMem`: the lowest bytes of the register, highest first.
unfoldable pub push_mem : ArgTuple → Machine → Option Machine
unfolding transfer_size
push_mem arg s = with_num_reg arg s (λ reg.
    let temp_sz = transfer_size arg.vopt in
    let value = get_num reg s.regs % 2 ^ (temp_sz * 8) in push (be_bytes temp_sz value) false s)

-- `popMem`. After the value is put together it is overwritten by a copy of `sizeof(size_t)` bytes
-- of the buffer, which has `temp_sz`: reading behind it is undefined behaviour.
unfoldable pub pop_mem : ArgTuple → Machine → Option Machine
unfolding transfer_size
pop_mem arg s = with_num_reg arg s (λ reg. do
  let temp_sz = transfer_size arg.vopt
  (temp, s') ← pop (zeroed temp_sz) true s
  if ltb temp_sz word_size then none else some (with_regs s' (set_num reg (le_value temp) s'.regs)))

-- `pushMemCR`.
unfoldable pub push_mem_cr : Machine → Option Machine
push_mem_cr s = push (s.regs.cr ∷ []) true s

-- `movsm`: from the stack to the address in the register.
unfoldable pub movsm : ArgTuple → Machine → Option Machine
unfolding transfer_size
movsm arg s = with_num_reg arg s (λ reg. do
  let addr = get_num reg s.regs
  (temp, s') ← pop (zeroed (transfer_size arg.vopt)) true s
  m ← ms temp addr s'.mem
  some (with_mem s' m))

-- `movgm`: from the address in the register to the stack.
unfoldable pub movgm : ArgTuple → Machine → Option Machine
unfolding transfer_size
movgm arg s = with_num_reg arg s (λ reg. do
  temp ← mg (zeroed (transfer_size arg.vopt)) (get_num reg s.regs) s.mem
  push temp true s)

-- `movsmCR`.
unfoldable pub movsm_cr : ArgTuple → Machine → Option Machine
movsm_cr arg s =
    with_num_reg arg s
      (λ reg. do m ← ms (s.regs.cr ∷ []) (get_num reg s.regs) s.mem; some (with_mem s m))

-- The actions on a floating-point register: another register fails the casts.
abbrev pub with_fp_reg : ArgTuple → Machine → (FpReg → Option Machine) → Option Machine
with_fp_reg arg s body = do
  reg_id ← att_to_reg_id arg s.mem
  reg ← access reg_id
  elim reg [ num n ↦ some s | chr ↦ some s | fp f ↦ body f ]

module _ (host : Host) where
  -- `popMemCR`.
  unfoldable pub pop_mem_cr : Machine → Option Machine
  pop_mem_cr s = do
    (cptr, s') ← pop (host.uninit 1) true s
    some (with_regs s' (record s'.regs { cr = get_or cptr 0 0 }))

  -- `movgmCR`.
  unfoldable pub movgm_cr : ArgTuple → Machine → Option Machine
  movgm_cr arg s = with_num_reg arg s (λ reg. do
    temp ← mg (host.uninit 1) (get_num reg s.regs) s.mem
    some (with_regs s (record s.regs { cr = get_or temp 0 0 })))

module _ (unit : FloatUnit) where
  -- `pushMemFPR` and `FPR_push_helper`.
  unfoldable pub push_mem_fpr : ArgTuple → Machine → Option Machine
  push_mem_fpr arg s =
      with_fp_reg arg s (λ f. push (unit.to_bytes (widen unit f.format (get_fp f s.regs))) true s)

  -- `movsmFPR` and `FPR_mem_set`: the address is in RAX.
  unfoldable pub movsm_fpr : ArgTuple → Machine → Option Machine
  movsm_fpr arg s = with_fp_reg arg s (λ f. do
    let value = widen unit f.format (get_fp f s.regs)
    m ← ms (unit.to_bytes value) (get_num (rx la) s.regs) s.mem
    some (with_mem s m))

  module _ (host : Host) where
    -- `popMemFPR` and `FPR_pop_helper`.
    unfoldable pub pop_mem_fpr : ArgTuple → Machine → Option Machine
    pop_mem_fpr arg s = with_fp_reg arg s (λ f. do
      (uc_fp, s') ← pop (host.uninit long_double_size) true s
      some (with_regs s' (set_fp f (narrow unit f.format (unit.of_bytes uc_fp)) s'.regs)))

    -- `movgmFPR` and `FPR_mem_get`.
    unfoldable pub movgm_fpr : ArgTuple → Machine → Option Machine
    movgm_fpr arg s = with_fp_reg arg s (λ f. do
      uc_fp ← mg (host.uninit long_double_size) (get_num (rx la) s.regs) s.mem
      some (with_regs s (set_fp f (narrow unit f.format (unit.of_bytes uc_fp)) s.regs)))
