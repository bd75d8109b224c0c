-- ===== src/NativeMaths.antt =====
-- Registers/native_maths.cpp, mov.cpp and registers_symbols.cpp: arithmetic, moves and constants.
pub mod Range
use virtual_processing_unit.Prelude.{
  ℕ, zero, suc, ◌+◌, ◌-◌, ◌*◌, ◌/◌, ◌%◌, ◌^◌, Bool, true, false, Option, none, some, ◌>>=◌, List,
  [], ◌∷◌, ◌==◌, if◌then◌else◌, get_or,
}
use virtual_processing_unit.Bytes.{size_mod, add64, sub64, atoull}
use virtual_processing_unit.Registers.{
  Regs, NumReg, get_num, set_num, is_num_reg, is_fp_reg, access_num, cr_id,
}
use virtual_processing_unit.Memory.{Memory, Machine, mg}
use virtual_processing_unit.Floats.{
  widen, narrow, Format, float, double, long_double, FpOp, fp_add, fp_sub, fp_mul, fp_div,
  FloatUnit, FpReg, Reg, num, chr, fp, access, get_fp, set_fp, long_double_size,
}
use virtual_processing_unit.Args.{ArgTuple, Host, att_to_reg_id, arg_to_ull}

-- The register of an identifier that passed `is_num_reg`, or `is_fp_reg`.
unfoldable pub access_fp : ℕ → Option FpReg
access_fp reg_id = elim (access reg_id) [
  | none ↦ none
  | some r ↦ elim r [ num n ↦ none | chr ↦ none | fp f ↦ some f ]
]

abbrev pub with_regs : Machine → Regs → Machine
with_regs s r = record s { regs = r }

-- `size_t` arithmetic of the four operations. A division by zero is undefined behaviour.
unfoldable pub int_op : FpOp → ℕ → ℕ → Option ℕ
int_op fp_add a b = some ((a + b) % size_mod)
int_op fp_sub a b = some ((a + size_mod - b) % size_mod)
int_op fp_mul a b = some (a * b % size_mod)
int_op fp_div a b = if b == 0 then none else some (a / b)

module _ (unit : FloatUnit) where
  -- The value of an FP register, as a `long double`.
  unfoldable pub widened : FpReg → Regs → ℕ
  widened f r = widen unit f.format (get_fp f r)

  -- `b_addGP`, `b_subGP`, `b_mulGP`, `b_divGP`: the same lines for each operation.
  unfoldable pub b_op : FpOp → ArgTuple → Machine → Option Machine
  unfolding access_fp widened
  b_op o arg s =
      if is_num_reg arg.vopt
      then (do
        src_id ← att_to_reg_id arg s.mem
        if is_num_reg src_id
            then (do
              dest ← access_num arg.vopt
              src ← access_num src_id
              v ← int_op o (get_num dest s.regs) (get_num src s.regs)
              some (with_regs s (set_num dest v s.regs)))
            else some s)
      else if is_fp_reg arg.vopt
      then (do
        src_id ← att_to_reg_id arg s.mem
        if is_fp_reg src_id
            then (do
              src ← access_fp src_id
              dest ← access_fp arg.vopt
              let ld = widened src s.regs
              some (
                  with_regs s (
                    set_fp dest
                      (unit.op o dest.format (get_fp dest s.regs) (narrow unit dest.format ld))
                      s.regs)))
            else some s)
      else some s

  -- `b_incGP` and `b_decGP`, with the operation that adds or subtracts one.
  unfoldable pub b_step : FpOp → ArgTuple → Machine → Option Machine
  unfolding access_fp
  b_step o arg s = do
    dest_id ← att_to_reg_id arg s.mem
    if is_num_reg dest_id
        then (do
          dest ← access_num dest_id
          v ← int_op o (get_num dest s.regs) 1
          some (with_regs s (set_num dest v s.regs)))
        else if is_fp_reg dest_id
        then (do
          dest ← access_fp dest_id
          some (
              with_regs s (
                set_fp dest (unit.op o dest.format (get_fp dest s.regs) (unit.one dest.format))
                  s.regs)))
        else some s

  abbrev pub b_add : ArgTuple → Machine → Option Machine
  b_add = b_op fp_add

  abbrev pub b_sub : ArgTuple → Machine → Option Machine
  b_sub = b_op fp_sub

  abbrev pub b_mul : ArgTuple → Machine → Option Machine
  b_mul = b_op fp_mul

  abbrev pub b_div : ArgTuple → Machine → Option Machine
  b_div = b_op fp_div

  abbrev pub b_inc : ArgTuple → Machine → Option Machine
  b_inc = b_step fp_add

  abbrev pub b_dec : ArgTuple → Machine → Option Machine
  b_dec = b_step fp_sub

  -- The assignments at the end of `b_movGP`: the second test looks at the source. A `double` that
  -- is written over a `long double`, or the other way round, is undefined behaviour.
  unfoldable pub mov_fp : FpReg → FpReg → Regs → Option Regs
  unfolding widened
  mov_fp src dest r =
      let ld = widened src r in
      elim dest.format [
        | float ↦ some (set_fp dest (narrow unit float ld) r)
        | double ↦ elim src.format [
          | float ↦ none
          | double ↦ some (set_fp dest (narrow unit double ld) r)
          | long_double ↦ none
        ]
        | long_double ↦ elim src.format [
          | float ↦ some (set_fp dest ld r)
          | double ↦ none
          | long_double ↦ some (set_fp dest ld r)
        ]
      ]

  -- `b_movGP`.
  unfoldable pub b_mov : ArgTuple → Machine → Option Machine
  unfolding access_fp mov_fp
  b_mov arg s =
      if is_num_reg arg.vopt
      then (do
        src_id ← att_to_reg_id arg s.mem
        if is_num_reg src_id
            then (do
              src ← access_num src_id
              dest ← access_num arg.vopt
              some (with_regs s (set_num dest (get_num src s.regs) s.regs)))
            else some s)
      else if is_fp_reg arg.vopt
      then (do
        src_id ← att_to_reg_id arg s.mem
        if is_fp_reg src_id
            then (do
              src ← access_fp src_id
              dest ← access_fp arg.vopt
              r ← mov_fp src dest s.regs
              some (with_regs s r))
            else some s)
      else some s

  module _ (host : Host) where
    -- `b_setGP`, with `b_set_num`, `b_set_chr` and `b_fetch_dbl_args`.
    unfoldable pub b_set : ArgTuple → Machine → Option Machine
    unfolding access_fp
    b_set arg s =
        if is_num_reg arg.vopt
        then (do
          v ← arg_to_ull host arg s.mem
          dest ← access_num arg.vopt
          some (with_regs s (set_num dest v s.regs)))
        else if arg.vopt == cr_id
        then (do
          uc_c ← mg (host.uninit 1) arg.vaddr s.mem
          some (with_regs s (record s.regs { cr = get_or uc_c 0 0 })))
        else if is_fp_reg arg.vopt
        then (do
          dest ← access_fp arg.vopt
          uc_d ← mg (host.uninit long_double_size) arg.vaddr s.mem
          some (with_regs s (set_fp dest (narrow unit dest.format (unit.of_bytes uc_d)) s.regs)))
        else some s
