-- ===== src/Lib.antt =====
-- A virtual 64-bit machine, its executable files and its assembler.
--
-- The program's parts. An assembler (SVASM/Assembler) splits a source into lines, instructions and
-- tokens, turns each instruction into actions, replaces labels by numbers and compiles each action to
-- bytes: an opcode, for some actions an optional byte, and an argument, which is a compressed
-- number, a register, a character or a `long double`. The link step puts the requested amount of
-- memory and the length of the code in front. A runner (VirtualExecutableRunner) reads such a file,
-- decodes the actions and stores their arguments in the static data zone of a new memory. A process
-- (Actions/v_engine.cpp) runs the actions one by one: a step counter in its registers says which is
-- next, and jumps change it. An action reads its argument from the static data zone by its address,
-- and works on the registers (Registers), the memory and the stack (Memory).
--
-- Files.
--   Prelude         tests, options, lists and bits that all files share.
--   Bytes           utility.h: ULLTOA, ATOULL, COMPBA, EXTDBA, VOPTTOTQ.
--   Registers       Registers/regs_decl.h, and the number registers of registers_symbols.h.
--                   Aliasing: which registers share bytes; Table: comn_registers_table.
--   Floats          the floating-point registers and the table of all registers.
--   Memory          Memory/memory_decl.cpp. Stack: what the loops of push and pop do, with
--                   RoundTrip, Invariant and Order; Heap: _MS, _MG, _MRSZ; Sdz: _SDZS.
--   Args            arg_tuple, ATTOREGID, ARGTOULL. Stored: arguments as the loader stores them.
--   NativeMaths     Registers/native_maths.cpp, mov.cpp, registers_symbols.cpp.
--   NativeBinary    Registers/native_binary.cpp.
--   MemorySymbols   Memory/memory_symbols.cpp.
--   ProcessSymbols  Actions/process_symbols.cpp. Comparison: cmp and jumps; Calls.
--   VirtualActions  Actions/actions_symbols.h, VirtualAssembler/instructions_set.cpp.
--   Text            std::string, std::stoull and std::stoll, as far as they are used.
--   Svasm           SVASM/Assembler: tokens, errors and actions.
--     Parser        parser.cpp. Lines: numbers of lines; RoundTrip: lines as they are written.
--     Tokenizer     tokenizer.cpp. Types: what tokens look like; Numbers: decimal numbers.
--     Preprocessor  compiler.cpp, preprocInst and preprocTokenized. Actions, Maths, Stack, Heap, Calls
--                   and Comparisons: the functions for instructions; Emits: safe and unsafe code side
--                   by side; Sources and Program: what the tokenizer gives; Labels; Rejected.
--     Compile       compiler.cpp, compileInst and compileAll. Meaning: what an argument stands for.
--   Assembler       SVASM/Assembler/main.cpp. Load: its output in the runner.
--   Loader          VirtualExecutableRunner/runner_main.cpp: decodeByteArray and decodeFile. Words and RoundTrip: one action; Program and
--                   Total: programs; Executable: files, with the link step of
--                   SVASM/Assembler/main.cpp.
--   Engine          Actions/v_engine.cpp. Loop and Termination: its loop; Preserved: what it keeps.
--   Extended        Registers/extended_symbols.cpp. Strings: strings in memory.
--   Interrupts      Actions/interrupts.cpp.
--   Files           ExtendedSymbols/files.cpp. Content: what files hold after a write.
--   ActionsEngine   Actions/actions_symbols.h: the table of handlers. Terminal and Effects: what a process
--                   does to the terminal and the files; Control: hlt and rflen.
--   Runner          VirtualExecutableRunner/runner_main.cpp: executeFile and runFile. Assembled: what
--                   the assembler writes, in the runner.
--   Network         Networking/netman.cpp, unixnet.cpp, net_symbols.cpp: Handlers; Order: which buffer a
--                   process gets.
--   Scheduler       Actions/threading.cpp. Termination: processes without back jumps.
--   Tests           the theorems at concrete inputs.
--
-- Conventions. A function of the source has its name in lower case (`b_movGP` is `b_mov`, `popMem`
-- is `pop_mem`). `size_t` is a number below 2 ^ 64 with its wrap-around written out; a byte is a
-- number below 256; an array is the list of its elements. A handler takes the argument's place and the
-- process (registers, memory, calling tree) and gives the process afterwards; `none` is undefined
-- behaviour or an exception of the standard library. In the assembler, whose errors end the program
-- with a code, the result says which. The machine is little-endian with a `long double` of 16 bytes.
--
-- Fuel. `decode_from` has as much fuel as there are bytes, and each round reads at least one.
-- `execute` does a given number of rounds; a program may run for ever, and what the number is enough
-- for is a theorem.
--
-- Parameters. `FloatUnit` is the floating-point hardware and <cmath>, on bit patterns; `Host` is what
-- memory holds that was not written; `FloatText` the reading, printing and rounding of a
-- `long double`; `stold_bytes` is std::stold followed by a copy of its bytes.
-- `Engine` and `Scheduler` are stated over what an action does, which `ActionsEngine` defines; there
-- `network` is what the handlers of the networking actions do, since threads act between the actions
-- too. In `Network`, `elapsed` is what the threads of a stream do while a handler waits.
--
-- Not modelled: the system calls of the sockets, the older assembler (VirtualAssembler, Compiler) and
-- the terminal library; of the assembler the messages and the numbers of lines in them.
pub mod Prelude
pub mod Bytes
pub mod Registers
pub mod Memory
pub mod Floats
pub mod Args
pub mod NativeMaths
pub mod NativeBinary
pub mod MemorySymbols
pub mod ProcessSymbols
pub mod VirtualActions
pub mod Text
pub mod Svasm
pub mod Loader
pub mod Engine
pub mod Extended
pub mod Interrupts
pub mod Files
pub mod ActionsEngine
pub mod Network
pub mod Scheduler
pub mod Tests
pub mod Assembler
pub mod Runner
