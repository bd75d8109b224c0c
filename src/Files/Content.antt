-- ===== src/Files/Content.antt =====
-- ExtendedSymbols/files.cpp: what a file holds after a write, and what a read of it gives.
use virtual_processing_unit.Prelude.{
  take-all, ℕ, ◌-◌, ◌<◌, ◌≡◌, refl, ap, ◌∙◌, sym, arith, Bool, true, false, not, ◌==◌,
  if◌then◌else◌, Bool-cases, inl, inr, some, List, ltb, leb, le→leb, length,
}
use virtual_processing_unit.Bytes.{atoull, word_size}
use virtual_processing_unit.Memory.{Machine, mg}
use virtual_processing_unit.Memory.Heap.{
  IsAllocated, InRange, cells_from, cells_from-store, store, ms-InRange, mg-InRange,
}
use virtual_processing_unit.Extended.Strings.{length-zeroed, length-cells_from}
use virtual_processing_unit.MemorySymbols.{with_mem}
use virtual_processing_unit.Args.{ArgTuple, zeroed}
use virtual_processing_unit.Text.{Text, text_eq, text_eq_refl}
use virtual_processing_unit.Files.{
  FileSystem, set_content, with_rax, with_rcx, file_name, file_operands, write_file, read_file,
  ex_rfwrite,
}

-- A write leaves exactly the bytes that it was given in the file, whatever it held and whatever the
-- offset is, and leaves every other file alone.
write_file-content :
    (f : FileSystem) (name : Text) (count iaddr file_offset : ℕ) (s : Machine) (bytes : List ℕ)
    → f.denied name ≡ false
    → mg (zeroed count) iaddr s.mem ≡ some bytes
    → (f' : FileSystem) × (write_file f name count iaddr file_offset s ≡ some (with_rcx 0 s, f'))
      × (f'.content name ≡ some bytes)
      × ((other : Text) → text_eq name other ≡ false → f'.content other ≡ f.content other)
unfolding write_file set_content
write_file-content f name count iaddr file_offset s bytes allowed read = (
  set_content name bytes f,
  rw (read, allowed, le→leb 0 file_offset (omega arith)) refl,
  rw (text_eq_refl name) refl,
  λ other ne. rw ne refl,
)

write_file-denied :
    (f : FileSystem) (name : Text) (count iaddr file_offset : ℕ) (s : Machine) (bytes : List ℕ)
    → f.denied name ≡ true
    → mg (zeroed count) iaddr s.mem ≡ some bytes
    → write_file f name count iaddr file_offset s ≡ some (with_rcx 4 s, f)
unfolding write_file
write_file-denied f name count iaddr file_offset s bytes denied read = rw (read, denied) refl

-- Whether `ex_rfwrite` writes: on this execution level, with this count, if the file can be opened.
abbrev pub writes : (level count : ℕ) (denied : Bool) → Bool
writes level count denied = if ltb 2 level then false else if count == 0 then false else not denied

-- The process after `ex_rfwrite`; `s'` has taken the operands off the stack.
abbrev pub after_rfwrite : (level count : ℕ) (denied : Bool) (s s' : Machine) → Machine
after_rfwrite level count denied s s' =
    if ltb 2 level
    then s
    else if count == 0
    then with_rcx 1 s
    else if denied
    then with_rcx 4 s'
    else with_rcx 0 s'

-- With a name, a count, operands and bytes that can be read, `ex_rfwrite` ends, and the named file
-- holds exactly the bytes, whatever it held before and whatever the offset is, if the execution level is below 3, the count
-- is not 0 and the file can be opened for writing; otherwise it is as it was, and every other file is
-- as it was in any case. The exit code goes to RCX: 1 for the count 0, 4 for a file that cannot be opened,
-- else 0; on level 3 nothing happens. The operands are taken off the stack only if the count is not 0.
pub ex_rfwrite-content :
    (arg : ArgTuple) (f : FileSystem) (s s' : Machine) (name : Text) (iaddr file_offset : ℕ)
    (temp bytes : List ℕ)
    → file_name s ≡ some name
    → mg (zeroed word_size) arg.vaddr s.mem ≡ some temp
    → file_operands s ≡ some (iaddr, file_offset, s')
    → mg (zeroed (atoull temp)) iaddr s'.mem ≡ some bytes
    → (f' : FileSystem) × (ex_rfwrite arg f s
        ≡ some (after_rfwrite s.regs.exec_level (atoull temp) (f.denied name) s s', f'))
      × (f'.content name ≡ (
          if writes s.regs.exec_level (atoull temp) (f.denied name)
          then some bytes
          else f.content name))
      × ((other : Text) → text_eq name other ≡ false → f'.content other ≡ f.content other)
unfolding ex_rfwrite
ex_rfwrite-content arg f s s' name iaddr file_offset temp bytes named counted operands read =
    elim (Bool-cases (ltb 2 s.regs.exec_level)) [
      | inl user ↦ (f, rw user refl, rw user refl, λ other ne. refl)
      | inr allowed ↦ elim (Bool-cases (atoull temp == 0)) [
        | inl empty ↦ (
          f,
          rw (allowed, named, counted, empty) refl,
          rw (allowed, empty) refl,
          λ other ne. refl,
        )
        | inr some_bytes ↦ elim (Bool-cases (f.denied name)) [
          | inl denied ↦ (
            f,
            rw
                (
                  allowed,
                  named,
                  counted,
                  some_bytes,
                  operands,
                  write_file-denied f name (atoull temp) iaddr file_offset s' bytes denied read,
                  denied,
                )
                refl,
            rw (allowed, some_bytes, denied) refl,
            λ other ne. refl,
          )
          | inr opens ↦
              let (f', wrote, held, others) =
                write_file-content f name (atoull temp) iaddr file_offset s' bytes opens read in
              (
                f',
                rw (allowed, named, counted, some_bytes, operands, wrote, opens) refl,
                rw (allowed, some_bytes, opens) held,
                others,
              )
        ]
      ]
    ]

-- A read of as many bytes as a file holds, from its start, into a range of the memory.
read_file-all :
    (f : FileSystem) (name : Text) (bytes : List ℕ) (oaddr : ℕ) (s : Machine)
    → f.content name ≡ some bytes
    → IsAllocated s.mem
    → 0 < length bytes
    → InRange s.mem oaddr (length bytes)
    → read_file f name (length bytes) oaddr 0 s
      ≡ some (with_rax 0 (with_mem s (record s.mem { cells = store s.mem.cells oaddr bytes })))
unfolding read_file
read_file-all f name bytes oaddr s held ok pos room =
    rw
      (
        read_file,
        held,
        not_past (length bytes) pos,
        enough (length bytes),
        take-all bytes,
        ms-InRange bytes oaddr s.mem ok pos room,
      )
      refl
  where
    not_past : (n : ℕ) → 0 < n → leb n 0 ≡ false
    not_past n h = ground arith

    enough : (n : ℕ) → ltb (n - 0) n ≡ false
    enough n = ground arith

-- What is written from one range of the memory to a file and read back into another is there: the
-- two ranges hold the same.
pub read_file-write_file :
    (f : FileSystem) (name : Text) (count iaddr file_offset oaddr : ℕ) (s : Machine)
    → f.denied name ≡ false
    → IsAllocated s.mem
    → 0 < count
    → InRange s.mem iaddr count
    → InRange s.mem oaddr count
    → (s₁ t : Machine) × (f' : FileSystem) × (write_file f name count iaddr file_offset s
        ≡ some (s₁, f'))
      × (read_file f' name count oaddr 0 s₁ ≡ some t)
      × (cells_from t.mem.cells oaddr count ≡ cells_from s.mem.cells iaddr count)
read_file-write_file f name count iaddr file_offset oaddr s allowed ok pos from to =
    let bytes = cells_from s.mem.cells iaddr count in
    let size = length-cells_from s.mem.cells iaddr count in
    let blank = length-zeroed count in
    let read : mg (zeroed count) iaddr s.mem ≡ some bytes =
      mg-InRange (zeroed count) iaddr s.mem ok (omega (arith, blank)) (omega (arith, blank))
      ∙ ap (λ n. some (cells_from s.mem.cells iaddr n)) blank in
    let (f', wrote, held, others) =
      write_file-content f name count iaddr file_offset s bytes allowed read in
    let s₁ = with_rcx 0 s in
    let t = with_rax 0 (with_mem s₁ (record s.mem { cells = store s.mem.cells oaddr bytes })) in
    (
      s₁,
      t,
      f',
      wrote,
      ap (λ n. read_file f' name n oaddr 0 s₁) (sym size)
          ∙ read_file-all f' name bytes oaddr s₁ held (record { zone = ok.zone; small = ok.small })
              (omega (arith, size)) (omega (arith, size)),
      ap (cells_from (store s.mem.cells oaddr bytes) oaddr) (sym size)
          ∙ cells_from-store s.mem.cells oaddr bytes,
    )
