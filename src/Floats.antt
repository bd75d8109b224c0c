-- ===== src/Floats.antt =====
-- The floating-point registers of Registers/regs_decl.h, over a floating-point unit.
-- A value is a number, its bit pattern; what the unit computes is a parameter.
use virtual_processing_unit.Prelude.{
  ℕ, ◌-◌, Bool, Option, none, some, List, [], ◌∷◌, ltb, if◌then◌else◌, get_elem?, ◌==◌,
}
use virtual_processing_unit.Registers.{Bank, Regs, NumReg, access_num, cr_id, fpr0_id}

-- `float`, `double` and `long double`.
pub data Format : Type 0 where
  float double long_double : Format

pub data FpOp : Type 0 where
  fp_add fp_sub fp_mul fp_div : FpOp

pub data FpFunction : Type 0 where
  fp_log fp_log2 fp_log10 : FpFunction

-- What the hardware and <cmath> compute. `float_up` to `double_down` are the
-- casts to and from `long double`, `to_bytes` and `of_bytes` its representation in memory.
pub record FloatUnit : Type 0 where
  pub float_up : ℕ → ℕ
  pub double_up : ℕ → ℕ
  pub float_down : ℕ → ℕ
  pub double_down : ℕ → ℕ
  pub op : FpOp → Format → ℕ → ℕ → ℕ
  pub one : Format → ℕ
  pub function : FpFunction → Format → ℕ → ℕ
  pub pow : Format → ℕ → ℕ → ℕ
  pub is_eq : ℕ → ℕ → Bool
  pub is_lt : ℕ → ℕ → Bool
  pub is_gt : ℕ → ℕ → Bool
  pub to_bytes : ℕ → List ℕ
  pub of_bytes : List ℕ → ℕ
  -- `(size_t)f((long double)n)` for `log2l`, `log10l`, `logbl`, and `powl` of two numbers
  pub int_function : FpFunction → ℕ → ℕ
  pub int_pow : ℕ → ℕ → ℕ

-- `(long double)v` for a value of the format, and the cast back.
unfoldable pub widen : FloatUnit → Format → ℕ → ℕ
widen unit float v = unit.float_up v
widen unit double v = unit.double_up v
widen unit long_double v = v

unfoldable pub narrow : FloatUnit → Format → ℕ → ℕ
narrow unit float v = unit.float_down v
narrow unit double v = unit.double_down v
narrow unit long_double v = v

-- `sizeof(long double)` on x86-64 Linux
abbrev pub long_double_size : ℕ
long_double_size = 16

pub data Index : Type 0 where
  i0 i1 i2 i3 : Index

-- One of `FPR0` to `RFPR3`.
pub record FpReg : Type 0 where
  pub format : Format
  pub index : Index

abbrev pub fp_reg : Format → Index → FpReg
fp_reg f i = record { format = f; index = i }

unfoldable pub get_bank : Index → Bank → ℕ
get_bank i0 b = b.r0
get_bank i1 b = b.r1
get_bank i2 b = b.r2
get_bank i3 b = b.r3

unfoldable pub set_bank : Index → ℕ → Bank → Bank
set_bank i0 v b = record b { r0 = v }
set_bank i1 v b = record b { r1 = v }
set_bank i2 v b = record b { r2 = v }
set_bank i3 v b = record b { r3 = v }

unfoldable pub get_format : Format → Index → Regs → ℕ
unfolding get_bank
get_format float i r = get_bank i r.fpr
get_format double i r = get_bank i r.efpr
get_format long_double i r = get_bank i r.rfpr

unfoldable pub set_format : Format → Index → ℕ → Regs → Regs
unfolding set_bank
set_format float i v r = record r { fpr = set_bank i v r.fpr }
set_format double i v r = record r { efpr = set_bank i v r.efpr }
set_format long_double i v r = record r { rfpr = set_bank i v r.rfpr }

-- `OrphanReg::get` and `set`.
unfoldable pub get_fp : FpReg → Regs → ℕ
unfolding get_format
get_fp f = get_format f.format f.index

unfoldable pub set_fp : FpReg → ℕ → Regs → Regs
unfolding set_format
set_fp f = set_format f.format f.index

abbrev pub fp_regs : List FpReg
fp_regs =
    fp_reg float i0
    ∷ fp_reg float i1
    ∷ fp_reg float i2
    ∷ fp_reg float i3
    ∷ fp_reg double i0
    ∷ fp_reg double i1
    ∷ fp_reg double i2
    ∷ fp_reg double i3
    ∷ fp_reg long_double i0
    ∷ fp_reg long_double i1
    ∷ fp_reg long_double i2
    ∷ fp_reg long_double i3
    ∷ []

-- What an entry of the register table points to.
pub data Reg : Type 0 where
  num : NumReg → Reg
  chr : Reg
  fp : FpReg → Reg

-- `comn_registers_table::access`. An entry that is not filled in, and an index behind the table,
-- are undefined behaviour.
unfoldable pub access : ℕ → Option Reg
unfolding access_num
access reg_id =
    if ltb reg_id cr_id
    then (elim (access_num reg_id) [ none ↦ none | some n ↦ some (num n) ])
    else if reg_id == cr_id
    then some chr
    else (elim (get_elem? fp_regs (reg_id - fpr0_id)) [ none ↦ none | some f ↦ some (fp f) ])
