-- ===== src/Tests/Extended.antt =====
-- Strings in the memory of a concrete process.
use virtual_processing_unit.Prelude.{◌≡◌, arith, some, ◌>>=◌, [], ◌∷◌}
use virtual_processing_unit.Memory.{Machine}
use virtual_processing_unit.Text.{Text}
use virtual_processing_unit.Extended.{b_get_input, b_strlen}
use virtual_processing_unit.Extended.Strings.{IsCString, b_strlen-b_get_input}
use virtual_processing_unit.Tests.Memory.{some_regs, some_machine, some_memory-IsAllocated}

-- A buffer of eight bytes at 30.
abbrev buffer_machine : Machine
buffer_machine = record some_machine { regs = record some_regs { rdi = 30; rsi = 8 } }

abbrev greeting : Text
greeting = 104 ∷ 105 ∷ []

greeting-IsCString : IsCString greeting
greeting-IsCString = (omega arith, (omega arith, tt))

b_strlen-b_get_input_example :
    (t : Machine) × ((b_get_input greeting buffer_machine >>= b_strlen) ≡ some t)
    × (t.regs ≡ record buffer_machine.regs { rsi = 2 })
    × (t.calling_tree ≡ some_machine.calling_tree)
b_strlen-b_get_input_example =
    b_strlen-b_get_input greeting buffer_machine greeting-IsCString (omega arith)
      some_memory-IsAllocated (omega arith)
