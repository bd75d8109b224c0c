-- ===== src/Tests/Memory.antt =====
-- The memory and its stack at a concrete process.
use virtual_processing_unit.Prelude.{
  ℕ, ◌+◌, ◌≤◌, ◌<◌, ◌≡◌, refl, arith, true, false, some, ◌>>=◌, List, [], ◌∷◌, length, ◌==◌,
  if◌then◌else◌, ◌⊎◌,
}
use virtual_processing_unit.Registers.{Regs, Bank, Storage}
use virtual_processing_unit.Memory.{Memory, Machine, push, pop, ms, mg, sdzs, swap_endian}
use virtual_processing_unit.Memory.Stack.RoundTrip.{IsStack, pop-push}
use virtual_processing_unit.Memory.Stack.Invariant.{push-IsStack, pop-IsStack}
use virtual_processing_unit.Memory.Stack.Order.{pop-pop-push}
use virtual_processing_unit.Memory.Heap.{IsAllocated, cells_from, mg-ms}
use virtual_processing_unit.Memory.Sdz.{IsZone, sdzs-IsZone}

abbrev no_floats : Bank
no_floats = record { r0 = 0; r1 = 0; r2 = 0; r3 = 0 }

abbrev empty_storage : Storage
empty_storage = record { l = 0; h = 0; eh = 0; rh = 0 }

-- RAX holds 5 and RBX 258; the stack has 100 bytes.
abbrev pub some_regs : Regs
some_regs = record {
  a = record { l = 5; h = 0; eh = 0; rh = 0 };
  b = record { l = 2; h = 1; eh = 0; rh = 0 };
  c = empty_storage;
  d = empty_storage;
  rbp = 200;
  rsp = 200;
  rsbgn = 201;
  rsend = 100;
  rdi = 0;
  rsi = 0;
  fpr = no_floats;
  efpr = no_floats;
  rfpr = no_floats;
  program_counter = 7;
  cmp_out = 0xff;
  stop_requested = false;
  process_call_address = 0;
  exec_level = 0;
  interrupts_flag = true;
  cr = 0;
}

-- Three words lie in the static data zone: the identifiers of RAX and RBX, and 40.
abbrev pub some_cells : ℕ → ℕ
some_cells a = if a == 7 then 0x11 else if a == 15 then 0x12 else if a == 23 then 40 else 0

abbrev pub some_memory : Memory
some_memory = record { cells = some_cells; memlen = 300; sdzsize = 64; sdztop = 24 }

abbrev pub some_machine : Machine
some_machine = record { regs = some_regs; mem = some_memory; calling_tree = 3 ∷ [] }

pub some_machine-IsStack : IsStack some_machine
some_machine-IsStack = omega arith

pub some_memory-IsAllocated : IsAllocated some_memory
some_memory-IsAllocated = omega arith

pub some_memory-IsZone : IsZone some_memory
some_memory-IsZone = omega arith

abbrev three : List ℕ
three = 1 ∷ 2 ∷ 3 ∷ []

abbrev zeros : List ℕ
zeros = 0 ∷ 0 ∷ 0 ∷ []

pop-push_example :
    (t : Machine) × ((push three true some_machine >>= pop zeros false)
      ≡ some (swap_endian false (swap_endian true three), t))
    × (t.regs ≡ some_regs)
    × (t.calling_tree ≡ some_machine.calling_tree)
    × ((a : ℕ)
        → (a + 3 ≤ 200 → t.mem.cells a ≡ some_cells a)
          × (200 < a → t.mem.cells a ≡ some_cells a)
          × (a ≤ 200 → 200 < a + 3 → t.mem.cells a ≡ 0))
pop-push_example =
    pop-push three zeros true false some_machine some_machine-IsStack (omega arith) (omega arith)
      refl

pop-pop-push_example :
    (s₁ s₂ s₃ s₄ : Machine) × (push three false some_machine ≡ some s₁)
    × (push (4 ∷ []) false s₁ ≡ some s₂)
    × (pop (0 ∷ []) true s₂ ≡ some (swap_endian true (swap_endian false (4 ∷ [])), s₃))
    × (pop zeros true s₃ ≡ some (swap_endian true (swap_endian false three), s₄))
    × (s₄.regs ≡ some_regs)
    × (s₄.calling_tree ≡ some_machine.calling_tree)
pop-pop-push_example =
    pop-pop-push some_machine three (4 ∷ []) (0 ∷ []) zeros false false true true
      some_machine-IsStack (omega arith) (omega arith) (omega arith) refl refl

push-IsStack_example :
    (t : Machine) × (push three true some_machine ≡ some t)
    × IsStack t
    × ((a : ℕ)
        → (200 < a → t.mem.cells a ≡ some_cells a) × (a ≤ 100 → t.mem.cells a ≡ some_cells a))
push-IsStack_example =
    push-IsStack three true some_machine some_machine-IsStack (omega arith) (omega arith)

pop-IsStack_example :
    (bytes : List ℕ) × (t : Machine) × (pop zeros true some_machine ≡ some (bytes, t))
    × IsStack t
    × (length bytes ≡ 3)
    × ((a : ℕ)
        → (a ≤ 200 → t.mem.cells a ≡ some_cells a) × (200 < a → t.mem.cells a ≡ some_cells a))
pop-IsStack_example = pop-IsStack zeros true some_machine some_machine-IsStack (omega arith)

-- The same process with its stack filled but for two bytes.
abbrev full_machine : Machine
full_machine = record some_machine { regs = record some_regs { rsp = 102 } }

full_machine-IsStack : IsStack full_machine
full_machine-IsStack = omega arith

mg-ms_example :
    ((ms three 40 some_memory >>= mg zeros 40) ≡ some three)
    × ((other : ℕ) (buffer : List ℕ)
        → 0 < length buffer
        → other + length buffer ≤ 301
        → (other + length buffer ≤ 40) ⊎ (43 ≤ other)
        → (ms three 40 some_memory >>= mg buffer other) ≡ mg buffer other some_memory)
mg-ms_example =
    mg-ms three zeros 40 some_memory some_memory-IsAllocated (omega arith) (omega arith) refl

sdzs-IsZone_example :
    (m' : Memory) × (sdzs (λ a. 0xcc) three some_memory ≡ some m')
    × (m'.sdztop ≡ 27)
    × (m'.sdztop ≤ m'.sdzsize)
    × (m'.memlen ≡ 300)
    × (m'.sdzsize ≤ 64 + 0x1000)
    × (cells_from m'.cells 24 3 ≡ three)
    × ((a : ℕ) → a < 24 → m'.cells a ≡ some_cells a)
sdzs-IsZone_example =
    sdzs-IsZone (λ a. 0xcc) three some_memory some_memory-IsZone (omega arith) (omega arith)
