-- ===== src/Tests/Actions.antt =====
-- Actions on a concrete process.
use virtual_processing_unit.Prelude.{
  ℕ, ◌<◌, ◌≡◌, ◌≢◌, ◌↔◌, refl, arith, true, false, some, ◌>>=◌, [], ◌∷◌, replicate, length,
}
use virtual_processing_unit.Bytes.{vopt_to_tq, be_bytes, atoull, add64, ulltoa, word_size}
use virtual_processing_unit.Registers.{
  NumReg, la, lb, rx, get_num, set_num, is_num_reg, access_num, to_reg_id, letter_offset,
}
use virtual_processing_unit.Registers.Aliasing.{home}
use virtual_processing_unit.Memory.{Memory, Machine, push, mg, read}
use virtual_processing_unit.Floats.{FloatUnit, fp_add, fp_sub}
use virtual_processing_unit.Args.{ArgTuple, Host, att_to_reg_id, arg_to_ull}
use virtual_processing_unit.Args.Stored.{kept_arg, keep-att_to_reg_id}
use virtual_processing_unit.NativeMaths.{b_op}
use virtual_processing_unit.NativeMaths.Range.{Operands, b_sub-b_add}
use virtual_processing_unit.NativeBinary.{bit_xor_op, binary_op, b_binary}
use virtual_processing_unit.NativeBinary.Operands.{b_binary-push}
use virtual_processing_unit.MemorySymbols.{push_mem, pop_mem, transfer_size}
use virtual_processing_unit.MemorySymbols.Transfer.{Names, pop_mem-push_mem}
use virtual_processing_unit.ProcessSymbols.{
  compare_words, cmp_none, less, is_met, p_cmp, p_jump_if, p_call, p_ret, p_svcall, p_rscall, p_cli,
}
use virtual_processing_unit.ProcessSymbols.Comparison.{
  Relates, is_met-compare_words, p_jump_if-compare_words, p_cmp-push,
}
use virtual_processing_unit.ProcessSymbols.Calls.{p_ret-p_rscall}
use virtual_processing_unit.VirtualActions.{inc}
use virtual_processing_unit.Loader.{keep}
use virtual_processing_unit.Tests.Memory.{
  some_regs, some_memory, some_machine, some_machine-IsStack, some_memory-IsAllocated,
  some_memory-IsZone,
}
use virtual_processing_unit.Tests.Registers.{some_regs-RegsFit}

abbrev pub host : Host
host = record { uninit = λ n. replicate n 0xcd; fresh = λ a. 0xcd }

-- A unit that computes zeros.
abbrev pub unit : FloatUnit
unit = record {
  float_up = λ v. v;
  double_up = λ v. v;
  float_down = λ v. v;
  double_down = λ v. v;
  op = λ o f a b. 0;
  one = λ f. 0;
  function = λ g f v. 0;
  pow = λ f a b. 0;
  is_eq = λ a b. true;
  is_lt = λ a b. false;
  is_gt = λ a b. false;
  to_bytes = λ v. replicate 16 0;
  of_bytes = λ bs. 0;
  int_function = λ g v. 0;
  int_pow = λ a b. 0;
}

-- The words of the static data zone name RAX and RBX, and hold 40.
abbrev rax_arg : ArgTuple
rax_arg = record { vaddr = 0; vsize = 8; vopt = 0 }

abbrev rbx_arg : ArgTuple
rbx_arg = record { vaddr = 8; vsize = 8; vopt = 0 }

abbrev word_arg : ArgTuple
word_arg = record { vaddr = 8; vsize = 8; vopt = 2 }

abbrev sum_arg : ArgTuple
sum_arg = record { vaddr = 8; vsize = 8; vopt = 0x11 }

abbrev number_arg : ArgTuple
number_arg = record { vaddr = 16; vsize = 8; vopt = 0 }

rax_Names : Names some_machine rax_arg (rx la)
unfolding att_to_reg_id mg read to_reg_id atoull is_num_reg access_num
rax_Names = record {
  id = 0x11;
  found = refl;
  is_num = refl;
  entry = refl;
  in_range = omega arith;
  below = omega arith;
}

rbx_Names : Names some_machine rbx_arg (rx lb)
unfolding att_to_reg_id mg read to_reg_id atoull is_num_reg access_num
rbx_Names = record {
  id = 0x12;
  found = refl;
  is_num = refl;
  entry = refl;
  in_range = omega arith;
  below = omega arith;
}

word_Names : Names some_machine word_arg (rx lb)
unfolding att_to_reg_id mg read to_reg_id atoull is_num_reg access_num
word_Names = record {
  id = 0x12;
  found = refl;
  is_num = refl;
  entry = refl;
  in_range = omega arith;
  below = omega arith;
}

sum_Operands : Operands some_machine sum_arg (rx la) (rx lb)
unfolding att_to_reg_id mg read to_reg_id atoull is_num_reg access_num
sum_Operands = record {
  dest_num = refl;
  dest_entry = refl;
  src_id = 0x12;
  found = refl;
  src_num = refl;
  src_entry = refl;
}

number_found : arg_to_ull host number_arg some_memory ≡ some 40
unfolding arg_to_ull mg read atoull
number_found = refl

whole : transfer_size 0 ≡ word_size
unfolding transfer_size vopt_to_tq
whole = refl

pop_mem-push_mem_example :
    (t : Machine) × ((push_mem rax_arg some_machine >>= pop_mem rbx_arg) ≡ some t)
    × (t.regs ≡ set_num (rx lb) (get_num (rx la) some_regs) some_regs)
    × (t.calling_tree ≡ some_machine.calling_tree)
    × ((a : ℕ) → 200 < a → t.mem.cells a ≡ some_memory.cells a)
pop_mem-push_mem_example =
    pop_mem-push_mem some_machine rax_arg rbx_arg (rx la) (rx lb) some_machine-IsStack
      some_memory-IsAllocated some_regs-RegsFit (omega arith) rax_Names rbx_Names whole whole

a_not_b : home (rx la) ≢ home (rx lb)
unfolding home letter_offset
a_not_b = omega arith

b_sub-b_add_example :
    (t : Machine) × ((b_op unit fp_add sum_arg some_machine >>= b_op unit fp_sub sum_arg) ≡ some t)
    × (get_num (rx la) t.regs ≡ get_num (rx la) some_regs)
    × ((n : NumReg) → home (rx la) ≢ home n → get_num n t.regs ≡ get_num n some_regs)
    × (t.mem ≡ some_memory)
    × (t.calling_tree ≡ some_machine.calling_tree)
b_sub-b_add_example =
    b_sub-b_add unit some_machine sum_arg (rx la) (rx lb) sum_Operands some_regs-RegsFit a_not_b

xor_value : binary_op bit_xor_op 12 (get_num (rx la) some_regs) ≡ some 9
unfolding binary_op get_num
xor_value = refl

b_binary-push_example :
    (s₁ t : Machine) × (push (be_bytes 8 12) false some_machine ≡ some s₁)
    × (b_binary host bit_xor_op rax_arg s₁ ≡ some t)
    × (t.regs ≡ set_num (rx la) 9 some_regs)
    × (t.calling_tree ≡ some_machine.calling_tree)
b_binary-push_example =
    b_binary-push host bit_xor_op some_machine rax_arg (rx la) 12 9 refl some_machine-IsStack
      some_memory-IsAllocated (omega arith) rax_Names (omega arith) xor_value

is_met-compare_words_example : (is_met less (compare_words 3 5) ≡ true) ↔ Relates less 3 5
is_met-compare_words_example = is_met-compare_words less 3 5

-- The process after a comparison of 3 with 5.
abbrev compared : Machine
compared = record some_machine { regs = record some_regs { cmp_out = 1 } }

three_five : compared.regs.cmp_out ≡ compare_words 3 5
unfolding compare_words
three_five = refl

p_jump_if-compare_words_example :
    (Relates less 3 5
      → (t : Machine) × (p_jump_if host less number_arg compared ≡ some t)
        × (t.regs.program_counter ≡ add64 7 40)
        × (t.regs.cmp_out ≡ cmp_none)
        × (t.mem ≡ some_memory))
    × (¬ Relates less 3 5 → p_jump_if host less number_arg compared ≡ some compared)
p_jump_if-compare_words_example =
    p_jump_if-compare_words host less number_arg compared 3 5 40 three_five number_found

p_cmp-push_example :
    (s₁ s₂ t : Machine) × (push (be_bytes 8 300) false some_machine ≡ some s₁)
    × (push (be_bytes 8 7) false s₁ ≡ some s₂)
    × (p_cmp host s₂ ≡ some t)
    × (t.regs ≡ record some_regs { cmp_out = compare_words 7 300 })
    × (t.calling_tree ≡ some_machine.calling_tree)
p_cmp-push_example =
    p_cmp-push host some_machine 300 7 refl some_machine-IsStack (omega arith) (omega arith)
      (omega arith)

cli_keeps : (t : Machine) → (p_cli t).calling_tree ≡ t.calling_tree
unfolding p_cli
cli_keeps t = ground arith

p_ret-p_rscall_example :
    (entered : Machine) × (p_call host number_arg some_machine ≡ some entered)
    × (entered.regs.program_counter ≡ 40)
    × ((p_ret (p_rscall (p_cli (p_svcall entered)))).regs.program_counter ≡ 7)
    × ((p_rscall (p_cli (p_svcall entered))).calling_tree ≡ 3 ∷ [])
p_ret-p_rscall_example = p_ret-p_rscall host number_arg some_machine 40 p_cli number_found cli_keeps

keep-att_to_reg_id_example :
    (m' : Memory) × (keep (λ a. 0xcd) inc 0 (ulltoa 0x11) [] some_memory
      ≡ some (record { act = inc; value_ptr = some (kept_arg some_memory 0) }, [], m'))
    × (att_to_reg_id (kept_arg some_memory 0) m' ≡ some (to_reg_id 0x11))
    × ((h : Host)
        → length (h.uninit word_size) ≡ word_size
        → arg_to_ull h (kept_arg some_memory 0) m' ≡ some 0x11)
keep-att_to_reg_id_example =
    keep-att_to_reg_id (λ a. 0xcd) inc 0 0x11 [] some_memory some_memory-IsZone (omega arith)
      (omega arith)
