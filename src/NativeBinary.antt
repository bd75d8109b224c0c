-- ===== src/NativeBinary.antt =====
-- Registers/native_binary.cpp: bitwise operations, shifts, logarithms and powers.
pub mod Operands
use virtual_processing_unit.Prelude.{
  ℕ, zero, suc, ◌+◌, ◌-◌, ◌*◌, ◌/◌, ◌%◌, ◌^◌, bit_and, bit_or, bit_xor, Bool, true, false, Option,
  none, some, ◌>>=◌, List, [], ◌∷◌, ltb, if◌then◌else◌,
}
use virtual_processing_unit.Bytes.{size_mod, word_size, le_value}
use virtual_processing_unit.Registers.{
  Regs, NumReg, get_num, set_num, is_num_reg, is_fp_reg, access_num,
}
use virtual_processing_unit.Memory.{Memory, Machine, pop}
use virtual_processing_unit.Floats.{
  widen, narrow, Format, float, double, long_double, FpFunction, fp_log, fp_log2, fp_log10,
  FloatUnit, FpReg, Reg, num, chr, fp, access, get_fp, set_fp, long_double_size,
}
use virtual_processing_unit.Args.{ArgTuple, Host, zeroed, att_to_reg_id}
use virtual_processing_unit.NativeMaths.{access_fp, with_regs}

-- The operations on a left value from the stack and a right value from a register.
pub data BinaryOp : Type 0 where
  bit_and_op bit_or_op bit_xor_op shift_left shift_right : BinaryOp

-- On words. A shift by the width or more is undefined behaviour.
unfoldable pub binary_op : BinaryOp → ℕ → ℕ → Option ℕ
binary_op bit_and_op left right = some (bit_and left right)
binary_op bit_or_op left right = some (bit_or left right)
binary_op bit_xor_op left right = some (bit_xor left right)
binary_op shift_left left right = if ltb right 64 then some (left * 2 ^ right % size_mod) else none
binary_op shift_right left right = if ltb right 64 then some (left / 2 ^ right) else none

-- `b_not`.
unfoldable pub b_not : ArgTuple → Machine → Option Machine
b_not arg s = do
  reg_id ← att_to_reg_id arg s.mem
  if is_num_reg reg_id
      then (do
        reg ← access_num reg_id
        some (with_regs s (set_num reg (size_mod - 1 - get_num reg s.regs) s.regs)))
      else some s

module _ (host : Host) where
  -- The lines that fetch a word from the stack.
  unfoldable pub pop_word : Machine → Option (ℕ × Machine)
  pop_word s = do (temp, s') ← pop (host.uninit word_size) true s; some (le_value temp, s')

  -- `b_and`, `b_or`, `b_xor`, `b_shl`, `b_shr`: the same lines for each operation.
  unfoldable pub b_binary : BinaryOp → ArgTuple → Machine → Option Machine
  unfolding pop_word
  b_binary o arg s = do
    reg_id ← att_to_reg_id arg s.mem
    if is_num_reg reg_id
        then (do
          (left, s') ← pop_word s
          reg ← access_num reg_id
          v ← binary_op o left (get_num reg s'.regs)
          some (with_regs s' (set_num reg v s'.regs)))
        else some s

  abbrev pub b_and : ArgTuple → Machine → Option Machine
  b_and = b_binary bit_and_op

  abbrev pub b_or : ArgTuple → Machine → Option Machine
  b_or = b_binary bit_or_op

  abbrev pub b_xor : ArgTuple → Machine → Option Machine
  b_xor = b_binary bit_xor_op

  abbrev pub b_shl : ArgTuple → Machine → Option Machine
  b_shl = b_binary shift_left

  abbrev pub b_shr : ArgTuple → Machine → Option Machine
  b_shr = b_binary shift_right

module _ (unit : FloatUnit) where
  -- `b_log`, `b_log2`, `b_log10`: the same lines for each function.
  unfoldable pub b_function : FpFunction → ArgTuple → Machine → Option Machine
  b_function f arg s = do
    reg_id ← att_to_reg_id arg s.mem
    if is_num_reg reg_id
        then (do
          reg ← access_num reg_id
          some (with_regs s (set_num reg (unit.int_function f (get_num reg s.regs)) s.regs)))
        else some s

  abbrev pub b_log2 : ArgTuple → Machine → Option Machine
  b_log2 = b_function fp_log2

  abbrev pub b_log10 : ArgTuple → Machine → Option Machine
  b_log10 = b_function fp_log10

  abbrev pub b_log : ArgTuple → Machine → Option Machine
  b_log = b_function fp_log

  -- `b_dlog2`, `b_dlog10`, `b_dlog`: a register that is no `OrphanReg` of a floating-point type
  -- fails the three casts.
  unfoldable pub b_dfunction : FpFunction → ArgTuple → Machine → Option Machine
  b_dfunction f arg s = do
    reg_id ← att_to_reg_id arg s.mem
    reg ← access reg_id
    elim reg [
      | num n ↦ some s
      | chr ↦ some s
      | fp d ↦ some (with_regs s (set_fp d (unit.function f d.format (get_fp d s.regs)) s.regs))
    ]

  abbrev pub b_dlog2 : ArgTuple → Machine → Option Machine
  b_dlog2 = b_dfunction fp_log2

  abbrev pub b_dlog10 : ArgTuple → Machine → Option Machine
  b_dlog10 = b_dfunction fp_log10

  abbrev pub b_dlog : ArgTuple → Machine → Option Machine
  b_dlog = b_dfunction fp_log

  -- The exponent that `b_dpow` uses: for a `float`, the register itself.
  unfoldable pub dpow_value : Format → ℕ → ℕ → ℕ
  dpow_value float regv power = unit.pow float regv regv
  dpow_value double regv power = unit.pow double regv (narrow unit double power)
  dpow_value long_double regv power = unit.pow long_double regv power

  -- `b_dpow`.
  unfoldable pub b_dpow : ArgTuple → Machine → Option Machine
  unfolding access_fp dpow_value
  b_dpow arg s = do
    reg_id ← att_to_reg_id arg s.mem
    if is_fp_reg reg_id
        then (do
          d ← access_fp reg_id
          (uc_ld, s') ← pop (zeroed long_double_size) true s
          some (
              with_regs s'
                (set_fp d (dpow_value d.format (get_fp d s'.regs) (unit.of_bytes uc_ld)) s'.regs)))
        else some s

  module _ (host : Host) where
    -- `b_pow`.
    unfoldable pub b_pow : ArgTuple → Machine → Option Machine
    unfolding pop_word
    b_pow arg s = do
      reg_id ← att_to_reg_id arg s.mem
      if is_num_reg reg_id
          then (do
            (power, s') ← pop_word host s
            reg ← access_num reg_id
            some (with_regs s' (set_num reg (unit.int_pow (get_num reg s'.regs) power) s'.regs)))
          else some s
