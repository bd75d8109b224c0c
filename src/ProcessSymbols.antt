-- ===== src/ProcessSymbols.antt =====
-- Actions/process_symbols.cpp: jumps, comparisons, calls and the state of a process.
pub mod Comparison
pub mod Calls
use virtual_processing_unit.Prelude.{
  ℕ, ◌+◌, ◌%◌, Bool, true, false, not, ◌||◌, Option, none, some, ◌>>=◌, List, [], ◌∷◌, ltb, ◌==◌,
  if◌then◌else◌,
}
use virtual_processing_unit.Bytes.{add64, word_size, le_value, le_bytes}
use virtual_processing_unit.Registers.{Regs}
use virtual_processing_unit.Memory.{Memory, Machine, push, pop}
use virtual_processing_unit.Floats.{FloatUnit, long_double_size}
use virtual_processing_unit.Args.{ArgTuple, Host, zeroed, arg_to_ull}
use virtual_processing_unit.NativeMaths.{with_regs}

-- The values of `cmp_out`.
abbrev pub cmp_equal : ℕ
cmp_equal = 0

abbrev pub cmp_less : ℕ
cmp_less = 1

abbrev pub cmp_greater : ℕ
cmp_greater = 2

abbrev pub cmp_unknown : ℕ
cmp_unknown = 0xfe

abbrev pub cmp_none : ℕ
cmp_none = 0xff

-- The comparison of `p_cmp`: on `size_t` its last branch is not reached.
unfoldable pub compare_words : ℕ → ℕ → ℕ
compare_words c1 c2 =
    if c1 == c2
    then cmp_equal
    else if ltb c1 c2
    then cmp_less
    else if ltb c2 c1
    then cmp_greater
    else cmp_unknown

abbrev pub with_cmp : Machine → ℕ → Machine
with_cmp s v = with_regs s (record s.regs { cmp_out = v })

-- Which results a conditional jump is taken at.
pub data Condition : Type 0 where
  equal not_equal less greater less_equal greater_equal : Condition

unfoldable pub is_met : Condition → ℕ → Bool
is_met equal out = out == cmp_equal
is_met not_equal out = not (out == cmp_equal)
is_met less out = out == cmp_less
is_met greater out = out == cmp_greater
is_met less_equal out = out == cmp_equal || out == cmp_less
is_met greater_equal out = out == cmp_equal || out == cmp_greater

module _ (host : Host) where
  -- `p_cmp`: both words are read into one buffer.
  unfoldable pub p_cmp : Machine → Option Machine
  unfolding compare_words
  p_cmp s = do
    (t1, s1) ← pop (host.uninit word_size) true s
    (t2, s2) ← pop t1 true s1
    some (with_cmp s2 (compare_words (le_value t1) (le_value t2)))

  -- `p_jmp`.
  unfoldable pub p_jmp : ArgTuple → Machine → Option Machine
  p_jmp arg s = do
    move ← arg_to_ull host arg s.mem
    some (with_regs s (record s.regs { program_counter = add64 s.regs.program_counter move }))

  -- `p_je`, `p_jne`, `p_jl`, `p_jg`, `p_jle`, `p_jge`: the same lines for each condition. A jump
  -- that is taken resets `cmp_out`.
  unfoldable pub p_jump_if : Condition → ArgTuple → Machine → Option Machine
  unfolding is_met
  p_jump_if c arg s = do
    move ← arg_to_ull host arg s.mem
    if is_met c s.regs.cmp_out
        then some (
            with_regs s (record s.regs {
              program_counter = add64 s.regs.program_counter move;
              cmp_out = cmp_none;
            }))
        else some s

  abbrev pub p_je : ArgTuple → Machine → Option Machine
  p_je = p_jump_if equal

  abbrev pub p_jne : ArgTuple → Machine → Option Machine
  p_jne = p_jump_if not_equal

  abbrev pub p_jl : ArgTuple → Machine → Option Machine
  p_jl = p_jump_if less

  abbrev pub p_jg : ArgTuple → Machine → Option Machine
  p_jg = p_jump_if greater

  abbrev pub p_jle : ArgTuple → Machine → Option Machine
  p_jle = p_jump_if less_equal

  abbrev pub p_jge : ArgTuple → Machine → Option Machine
  p_jge = p_jump_if greater_equal

  -- `p_call`.
  unfoldable pub p_call : ArgTuple → Machine → Option Machine
  p_call arg s = do
    target ← arg_to_ull host arg s.mem
    some (
        with_regs s (record s.regs {
          process_call_address = s.regs.program_counter;
          program_counter = target;
        }))

  -- `p_lcall`.
  unfoldable pub p_lcall : ArgTuple → Machine → Option Machine
  p_lcall arg s = do
    target ← arg_to_ull host arg s.mem
    some (with_regs s (record s.regs { program_counter = target }))

-- `p_ret`.
unfoldable pub p_ret : Machine → Machine
p_ret s = with_regs s (record s.regs { program_counter = s.regs.process_call_address })

-- `p_svcall` and `p_rscall`, on the calling tree.
unfoldable pub p_svcall : Machine → Machine
p_svcall s = record s { calling_tree = s.regs.process_call_address ∷ s.calling_tree }

abbrev pub restore_call : List ℕ → Machine → Machine
restore_call [] s = s
restore_call (last ∷ rest) s = record s {
  regs = record s.regs { process_call_address = last };
  calling_tree = rest;
}

unfoldable pub p_rscall : Machine → Machine
p_rscall s = restore_call s.calling_tree s

-- `p_gca`.
unfoldable pub p_gca : Machine → Option Machine
p_gca s =
    if s.regs.exec_level == 0
    then push (le_bytes word_size s.regs.program_counter) true s
    else some s

-- `p_hlt`.
unfoldable pub p_hlt : Machine → Machine
p_hlt s =
    if s.regs.exec_level == 0 then with_regs s (record s.regs { stop_requested = true }) else s

-- `p_sti` and `p_cli`.
unfoldable pub p_sti : Machine → Machine
p_sti s =
    if s.regs.exec_level == 0 then with_regs s (record s.regs { interrupts_flag = true }) else s

unfoldable pub p_cli : Machine → Machine
p_cli s =
    if s.regs.exec_level == 0 then with_regs s (record s.regs { interrupts_flag = false }) else s

module _ (unit : FloatUnit) where
  -- The comparison of `p_cmpdbl`: the last branch is for values that are not numbers.
  unfoldable pub compare_doubles : ℕ → ℕ → ℕ
  compare_doubles d1 d2 =
      if unit.is_eq d1 d2
      then cmp_equal
      else if unit.is_lt d1 d2
      then cmp_less
      else if unit.is_gt d1 d2
      then cmp_greater
      else cmp_unknown

  -- `p_cmpdbl`.
  unfoldable pub p_cmpdbl : Machine → Option Machine
  unfolding compare_doubles
  p_cmpdbl s = do
    (t1, s1) ← pop (zeroed long_double_size) true s
    (t2, s2) ← pop t1 true s1
    some (with_cmp s2 (compare_doubles (unit.of_bytes t1) (unit.of_bytes t2)))
