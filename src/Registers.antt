-- ===== src/Registers.antt =====
-- Registers/regs_decl.h and the register table of Registers/registers_symbols.h.
-- `AX`, `EAX` and `RAX` share storage: two bytes, the upper half of `EAX`, the upper half of `RAX`.
pub mod Aliasing
pub mod Table
use virtual_processing_unit.Prelude.{
  ℕ, ◌+◌, ◌-◌, ◌*◌, ◌/◌, ◌%◌, ◌^◌, ◌≤◌, ◌<◌, Bool, true, false, ◌&&◌, Option, none, some, ltb, leb,
  ◌==◌, if◌then◌else◌, List, [], ◌∷◌, get_elem?,
}
use virtual_processing_unit.Bytes.{size_mod}

-- The storage behind one of the letters A, B, C, D: `c_al`, `c_ah`, `eax_h`, `rax_h`.
pub record Storage : Type 0 where
  pub l : ℕ
  pub h : ℕ
  pub eh : ℕ
  pub rh : ℕ

-- `extendedReg::get` and `set`, on 16 bits.
unfoldable pub get_extended : Storage → ℕ
get_extended s = s.h * 2 ^ 8 + s.l

unfoldable pub set_extended : ℕ → Storage → Storage
set_extended value s = record s { l = value % 2 ^ 8; h = value / 2 ^ 8 % 2 ^ 8 }

-- `extendedEXReg::get` and `set`, on 32 bits.
unfoldable pub get_extended_ex : Storage → ℕ
unfolding get_extended
get_extended_ex s = s.eh * 2 ^ 16 + get_extended s

unfoldable pub set_extended_ex : ℕ → Storage → Storage
unfolding set_extended
set_extended_ex value s =
    let s' = set_extended (value % 2 ^ 16) s in record s' { eh = value / 2 ^ 16 % 2 ^ 16 }

-- `extendedEEXReg::get` and `set`, on 64 bits.
unfoldable pub get_extended_eex : Storage → ℕ
unfolding get_extended_ex
get_extended_eex s = s.rh * 2 ^ 32 + get_extended_ex s

unfoldable pub set_extended_eex : ℕ → Storage → Storage
unfolding set_extended_ex
set_extended_eex value s =
    let s' = set_extended_ex (value % 2 ^ 32) s in record s' { rh = value / 2 ^ 32 % 2 ^ 32 }

-- Four registers of one floating-point format, as bit patterns.
pub record Bank : Type 0 where
  pub r0 : ℕ
  pub r1 : ℕ
  pub r2 : ℕ
  pub r3 : ℕ

-- `regs`. `structPtr` is never used.
pub record Regs : Type 0 where
  pub a : Storage
  pub b : Storage
  pub c : Storage
  pub d : Storage
  pub rbp : ℕ
  pub rsp : ℕ
  pub rsbgn : ℕ
  pub rsend : ℕ
  pub rdi : ℕ
  pub rsi : ℕ
  pub fpr : Bank
  pub efpr : Bank
  pub rfpr : Bank
  pub program_counter : ℕ
  pub cmp_out : ℕ
  pub stop_requested : Bool
  pub process_call_address : ℕ
  pub exec_level : ℕ
  pub interrupts_flag : Bool
  pub cr : ℕ

-- The registers that `comn_registers_table` has a number register for.
pub data Letter : Type 0 where
  la lb lc ld : Letter

pub data NumReg : Type 0 where
  x ex rx : Letter → NumReg
  rbp rsp rdi rsi : NumReg

unfoldable pub storage : Letter → Regs → Storage
storage la r = r.a
storage lb r = r.b
storage lc r = r.c
storage ld r = r.d

unfoldable pub set_storage : Letter → Storage → Regs → Regs
set_storage la s r = record r { a = s }
set_storage lb s r = record r { b = s }
set_storage lc s r = record r { c = s }
set_storage ld s r = record r { d = s }

-- `((reg_int<size_t>*)access(id))->get()`: the register's own `get`, its result widened.
unfoldable pub get_num : NumReg → Regs → ℕ
unfolding storage get_extended_eex
get_num (x g) r = get_extended (storage g r)
get_num (ex g) r = get_extended_ex (storage g r)
get_num (rx g) r = get_extended_eex (storage g r)
get_num rbp r = r.rbp
get_num rsp r = r.rsp
get_num rdi r = r.rdi
get_num rsi r = r.rsi

-- `((reg_int<size_t>*)access(id))->set(value)`: the register's own `set`, the value cut to its
-- width.
unfoldable pub set_num : NumReg → ℕ → Regs → Regs
unfolding storage set_storage set_extended_eex
set_num (x g) value r = set_storage g (set_extended (value % 2 ^ 16) (storage g r)) r
set_num (ex g) value r = set_storage g (set_extended_ex (value % 2 ^ 32) (storage g r)) r
set_num (rx g) value r = set_storage g (set_extended_eex (value % 2 ^ 64) (storage g r)) r
set_num rbp value r = record r { rbp = value % 2 ^ 64 }
set_num rsp value r = record r { rsp = value % 2 ^ 64 }
set_num rdi value r = record r { rdi = value % 2 ^ 64 }
set_num rsi value r = record r { rsi = value % 2 ^ 64 }

-- `(comn_registers)value`: the enumeration is an `int`, and is compared as a `size_t`.
unfoldable pub to_reg_id : ℕ → ℕ
to_reg_id value = let w = value % 2 ^ 32 in if ltb w (2 ^ 31) then w else w + (size_mod - 2 ^ 32)

abbrev pub cr_id : ℕ
cr_id = 0x19

abbrev pub fpr0_id : ℕ
fpr0_id = 0x1a

abbrev pub rfpr3_id : ℕ
rfpr3_id = 0x25

unfoldable pub is_num_reg : ℕ → Bool
is_num_reg reg_id = ltb reg_id cr_id

unfoldable pub is_fp_reg : ℕ → Bool
is_fp_reg reg_id = leb fpr0_id reg_id && leb reg_id rfpr3_id

-- The entries of the table for number registers, from `AX` (0x09) to `RSI` (0x18).
abbrev pub num_regs : List NumReg
num_regs =
    x la
    ∷ x lb
    ∷ x lc
    ∷ x ld
    ∷ ex la
    ∷ ex lb
    ∷ ex lc
    ∷ ex ld
    ∷ rx la
    ∷ rx lb
    ∷ rx lc
    ∷ rx ld
    ∷ rbp
    ∷ rsp
    ∷ rdi
    ∷ rsi
    ∷ []

-- `comn_registers_table::access` for a number register. The entries of `AL` to `DH`, and the
-- unnamed entry 0, are never filled in: to use one is undefined behaviour, `none`.
unfoldable pub access_num : ℕ → Option NumReg
access_num reg_id = if ltb reg_id 9 then none else get_elem? num_regs (reg_id - 9)

-- The identifier of a register in `comn_registers`.
unfoldable pub letter_offset : Letter → ℕ
letter_offset la = 0
letter_offset lb = 1
letter_offset lc = 2
letter_offset ld = 3

unfoldable pub reg_id : NumReg → ℕ
unfolding letter_offset
reg_id (x g) = 0x09 + letter_offset g
reg_id (ex g) = 0x0d + letter_offset g
reg_id (rx g) = 0x11 + letter_offset g
reg_id rbp = 0x15
reg_id rsp = 0x16
reg_id rdi = 0x17
reg_id rsi = 0x18
