-- ===== src/Runner.antt =====
-- VirtualExecutableRunner/runner_main.cpp: `executeFile` and `runFile`.
pub mod Assembled
use virtual_processing_unit.Prelude.{ℕ, false, true, Option, some, ◌>>=◌, List, []}
use virtual_processing_unit.Registers.{Storage, Bank, Letter, la, lb, lc, ld, Regs}
use virtual_processing_unit.Memory.{Memory, Machine, init, mrsz}
use virtual_processing_unit.Args.{ArgTuple, Host}
use virtual_processing_unit.Floats.{FloatUnit}
use virtual_processing_unit.VirtualActions.{VirtualAction}
use virtual_processing_unit.MemorySymbols.{with_mem}
use virtual_processing_unit.Extended.{FloatText}
use virtual_processing_unit.Loader.{Action, decode_file, decode_byte_array}
use virtual_processing_unit.Engine.{Outside, Process, process, execute}
use virtual_processing_unit.ActionsEngine.{execute_action}

-- New `regs`: the number registers hold what was in their place, `held`.
abbrev zeros : Bank
zeros = record { r0 = 0; r1 = 0; r2 = 0; r3 = 0 }

unfoldable pub new_regs : (Letter → Storage) → Regs
new_regs held = record {
  a = held la;
  b = held lb;
  c = held lc;
  d = held ld;
  rbp = 0;
  rsp = 0;
  rsbgn = 0;
  rsend = 0;
  rdi = 0;
  rsi = 0;
  fpr = zeros;
  efpr = zeros;
  rfpr = zeros;
  program_counter = 0;
  cmp_out = 0xff;
  stop_requested = false;
  process_call_address = 0;
  exec_level = 0;
  interrupts_flag = true;
  cr = 0;
}

-- What the actions of a process start on, with this memory.
abbrev pub new_machine : (Letter → Storage) → Memory → Machine
new_machine held m = record { regs = new_regs held; mem = m; calling_tree = [] }

module _ (unit : FloatUnit) (float_text : FloatText) (host : Host)
    (network : VirtualAction → ArgTuple → Machine → Option Machine) (held : Letter → Storage) where
  -- `executeFile`, for at most `fuel` rounds of the process. The memory grows when the process has
  -- placed its stack.
  unfoldable pub execute_file : ℕ → Outside → List ℕ → ℕ → Option Process
  unfolding new_regs init
  execute_file fuel o main_code req_mem = do
    (main_actions, mem) ← decode_byte_array host.fresh main_code init
    let proc = process (new_machine held mem) o main_actions
    m ← mrsz req_mem proc.machine.mem
    execute (execute_action unit float_text host network) fuel
        (record proc { machine = with_mem proc.machine m })

  -- `runFile`, on what the file holds.
  unfoldable pub run_file : ℕ → Outside → List ℕ → Option Process
  unfolding execute_file
  run_file fuel o exe_bytes = do
    (req_mem, main_code) ← decode_file exe_bytes
    execute_file fuel o main_code req_mem
