-- ===== src/Tests/Files.antt =====
-- Files at a concrete process.
use virtual_processing_unit.Prelude.{ℕ, List, none, ◌≡◌, refl, arith, false, some, [], ◌∷◌}
use virtual_processing_unit.Bytes.{atoull, word_size}
use virtual_processing_unit.Memory.{
  Machine, mg, read, write, update, pop, is_valid_pop, pop_loop, swap_endian,
}
use virtual_processing_unit.Args.{ArgTuple, zeroed}
use virtual_processing_unit.Memory.Heap.{cells_from}
use virtual_processing_unit.Text.{Text, text_eq, codes}
use virtual_processing_unit.Extended.{c_string}
use virtual_processing_unit.Files.{
  FileSystem, with_rcx, file_name, file_operands, write_file, read_file, ex_rfwrite,
}
use virtual_processing_unit.Files.Content.{ex_rfwrite-content, read_file-write_file}
use virtual_processing_unit.Tests.Memory.{
  some_regs, some_memory, some_machine, some_memory-IsAllocated,
}

-- One file, with ten bytes.
abbrev files : FileSystem
files = record {
  content = λ name. some (1 ∷ 2 ∷ 3 ∷ 4 ∷ 5 ∷ 6 ∷ 7 ∷ 8 ∷ 9 ∷ 10 ∷ []);
  denied = λ name. false;
}

abbrev log_name : Text
log_name = codes "log"

-- The name is the text at 7, of one character; two words lie on the stack; the number of bytes is
-- the word at 16.
abbrev writer : Machine
writer = record some_machine { regs = record some_regs { rdi = 2; rsi = 7; rsp = 184 } }

abbrev count_arg : ArgTuple
count_arg = record { vaddr = 16; vsize = 8; vopt = 0 }

abbrev name_of_writer : Text
name_of_writer = 0x11 ∷ []

abbrev operands_taken : Machine
operands_taken = elim (file_operands writer) [ none ↦ writer | some (iaddr, offset, s') ↦ s' ]

abbrev count_bytes : List ℕ
count_bytes = 0 ∷ 0 ∷ 0 ∷ 0 ∷ 0 ∷ 0 ∷ 0 ∷ 40 ∷ []

writer-name : file_name writer ≡ some name_of_writer
unfolding file_name mg read c_string
writer-name = refl

writer-count : mg (zeroed word_size) 16 some_memory ≡ some count_bytes
unfolding mg read
writer-count = refl

writer-operands : file_operands writer ≡ some (0, 0, operands_taken)
unfolding file_operands pop is_valid_pop pop_loop swap_endian read write update atoull
writer-operands = refl

writer-bytes :
    mg (zeroed (atoull count_bytes)) 0 operands_taken.mem ≡ some (cells_from some_memory.cells 0 40)
unfolding file_operands pop is_valid_pop pop_loop swap_endian mg read write update atoull
writer-bytes = refl

ex_rfwrite-content_example :
    (f' : FileSystem) × (ex_rfwrite count_arg files writer ≡ some (with_rcx 0 operands_taken, f'))
    × (f'.content name_of_writer ≡ some (cells_from some_memory.cells 0 40))
    × ((other : Text)
        → text_eq name_of_writer other ≡ false
        → f'.content other ≡ files.content other)
unfolding atoull
ex_rfwrite-content_example =
    ex_rfwrite-content count_arg files writer operands_taken name_of_writer 0 0 count_bytes
      (cells_from some_memory.cells 0 40) writer-name writer-count writer-operands writer-bytes

read_file-write_file_example :
    (s₁ t : Machine) × (f' : FileSystem) × (write_file files log_name 2 6 4 some_machine
      ≡ some (s₁, f'))
    × (read_file f' log_name 2 40 0 s₁ ≡ some t)
    × (cells_from t.mem.cells 40 2 ≡ 0 ∷ 0x11 ∷ [])
read_file-write_file_example =
    read_file-write_file files log_name 2 6 4 40 some_machine refl some_memory-IsAllocated
      (omega arith) (omega arith) (omega arith)
