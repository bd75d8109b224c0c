-- ===== src/Args.antt =====
-- The arguments of an action: `arg_tuple` of utility.h, and how Registers/registers_symbols.h and
-- Actions/process_symbols.cpp read them from memory.
use virtual_processing_unit.Prelude.{ℕ, Option, some, ◌>>=◌, List, replicate}
pub mod Stored
use virtual_processing_unit.Bytes.{atoull, word_size}
use virtual_processing_unit.Registers.{to_reg_id}
use virtual_processing_unit.Memory.{Memory, mg}

-- Where the constant lies, how long it is, and the optional byte.
pub record ArgTuple : Type 0 where
  pub vaddr : ℕ
  pub vsize : ℕ
  pub vopt : ℕ

-- What the program finds in memory that it was given and has not written: `uninit n` in a new
-- buffer of `n` bytes, `fresh` in a new `_memory`.
pub record Host : Type 0 where
  pub uninit : ℕ → List ℕ
  pub fresh : ℕ → ℕ

-- A buffer of `make_unique`, which is cleared.
abbrev pub zeroed : ℕ → List ℕ
zeroed n = replicate n 0

-- `ATTOREGID`.
unfoldable pub att_to_reg_id : ArgTuple → Memory → Option ℕ
att_to_reg_id arg m = do temp ← mg (zeroed word_size) arg.vaddr m; some (to_reg_id (atoull temp))

-- `ARGTOULL`, and the same lines of `p_call`, `p_lcall`, `b_set_num` and `_intcall`.
unfoldable pub arg_to_ull : Host → ArgTuple → Memory → Option ℕ
arg_to_ull host arg m = do temp ← mg (host.uninit word_size) arg.vaddr m; some (atoull temp)
