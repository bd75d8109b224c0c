-- ===== src/Files.antt =====
-- ExtendedSymbols/files.cpp: reading, writing and measuring files.
pub mod Content
use virtual_processing_unit.Prelude.{
  ℕ, ◌-◌, Bool, true, false, Option, none, some, ◌>>=◌, List, [], ◌∷◌, ◌++◌, ltb, leb, ◌==◌,
  if◌then◌else◌, length, take, drop,
}
use virtual_processing_unit.Bytes.{atoull, word_size, size_mod}
use virtual_processing_unit.Registers.{Regs, rx, la, lc, set_num, is_num_reg, access_num}
use virtual_processing_unit.Memory.{Memory, Machine, pop, ms, mg}
use virtual_processing_unit.Args.{ArgTuple, zeroed, att_to_reg_id}
use virtual_processing_unit.NativeMaths.{with_regs}
use virtual_processing_unit.MemorySymbols.{with_mem}
use virtual_processing_unit.Text.{Text, text_eq}
use virtual_processing_unit.Extended.{c_string}

-- The files of the system: what they hold, and which names cannot be opened for writing.
pub record FileSystem : Type 0 where
  pub content : Text → Option (List ℕ)
  pub denied : Text → Bool

unfoldable pub set_content : Text → List ℕ → FileSystem → FileSystem
set_content name bytes f = record f {
  content = λ other. if text_eq name other then some bytes else f.content other;
}

-- The result code in RAX, or in RCX for a write.
abbrev pub with_rax : ℕ → Machine → Machine
with_rax code s = with_regs s (set_num (rx la) code s.regs)

abbrev pub with_rcx : ℕ → Machine → Machine
with_rcx code s = with_regs s (set_num (rx lc) code s.regs)

-- The lines that fetch the name: RDI bytes from the address in RSI.
unfoldable pub file_name : Machine → Option Text
file_name s = mg (zeroed s.regs.rdi) s.regs.rsi s.mem >>= c_string

-- The address and the offset, from the stack. `pop` fills the buffer lowest byte first, and `ATOULL`
-- reads it highest byte first.
unfoldable pub file_operands : Machine → Option (ℕ × ℕ × Machine)
file_operands s = do
  (t₁, s₁) ← pop (zeroed word_size) true s
  (t₂, s₂) ← pop t₁ true s₁
  some (atoull t₁, atoull t₂, s₂)

-- `ex_rfread`, from where the file is opened on.
unfoldable pub read_file :
    FileSystem → Text → (count oaddr file_offset : ℕ) → Machine → Option Machine
read_file f name count oaddr file_offset s = elim (f.content name) [
  | none ↦ some (with_rax 4 s)
  | some bytes ↦
      if leb (length bytes) file_offset
      then some (with_rax 2 s)
      else if ltb (length bytes - file_offset) count
      then some (with_rax 3 s)
      else (do
        m ← ms (take count (drop file_offset bytes)) oaddr s.mem
        some (with_rax 0 (with_mem s m)))
]

-- `ex_rfread`.
unfoldable pub ex_rfread : ArgTuple → FileSystem → Machine → Option Machine
unfolding file_name file_operands read_file
ex_rfread arg f s = if ltb 2 s.regs.exec_level then some s else (do
  name ← file_name s
  temp ← mg (zeroed word_size) arg.vaddr s.mem
  if atoull temp == 0 then some (with_rax 1 s) else (do
    (oaddr, file_offset, s') ← file_operands s
    read_file f name (atoull temp) oaddr file_offset s'))

-- `ex_rfwrite`, from where the file is opened on: opening cuts the file to nothing, so that its size
-- is never past the offset, and the bytes are appended.
unfoldable pub write_file :
    FileSystem → Text → (count iaddr file_offset : ℕ) → Machine → Option (Machine × FileSystem)
unfolding set_content
write_file f name count iaddr file_offset s = do
  bytes ← mg (zeroed count) iaddr s.mem
  if f.denied name
      then some (with_rcx 4 s, f)
      else (let opened : List ℕ = [] in
          if leb (length opened) file_offset
          then some (with_rcx 0 s, set_content name (opened ++ bytes) f)
          else some (
            with_rcx 0 s,
            set_content name
                (take file_offset opened ++ bytes ++ drop file_offset (drop (length bytes) opened))
                f,
          ))

-- `ex_rfwrite`.
unfoldable pub ex_rfwrite : ArgTuple → FileSystem → Machine → Option (Machine × FileSystem)
unfolding file_name file_operands write_file
ex_rfwrite arg f s = if ltb 2 s.regs.exec_level then some (s, f) else (do
  name ← file_name s
  temp ← mg (zeroed word_size) arg.vaddr s.mem
  if atoull temp == 0 then some (with_rcx 1 s, f) else (do
    (iaddr, file_offset, s') ← file_operands s
    write_file f name (atoull temp) iaddr file_offset s'))

-- `ex_rflen`: `file_size` gives the largest number for a file that is not there.
unfoldable pub ex_rflen : ArgTuple → FileSystem → Machine → Option Machine
unfolding file_name
ex_rflen arg f s = if ltb 2 s.regs.exec_level then some s else (do
  reg_id ← att_to_reg_id arg s.mem
  if is_num_reg reg_id
      then (do
        reg ← access_num reg_id
        name ← file_name s
        elim (f.content name) [
          | none ↦ some (with_rax 1 (with_regs s (set_num reg (size_mod - 1) s.regs)))
          | some bytes ↦ some (with_rax 0 (with_regs s (set_num reg (length bytes) s.regs)))
        ])
      else some s)
