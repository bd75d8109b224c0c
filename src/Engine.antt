-- ===== src/Engine.antt =====
-- Actions/v_engine.cpp: a process, its stack and its loop. What an action does is a parameter.
pub mod Loop
pub mod Preserved
pub mod Termination
use virtual_processing_unit.Prelude.{
  ℕ, zero, suc, ◌+◌, ◌%◌, ◌^◌, Bool, true, false, not, ◌&&◌, Option, none, some, ◌>>=◌, List, [],
  ◌∷◌, ◌++◌, ltb, if◌then◌else◌, length, get_elem?,
}
use virtual_processing_unit.Bytes.{add64, sub64, size_mod}
use virtual_processing_unit.Registers.{Regs}
use virtual_processing_unit.Memory.{Memory, Machine, get_mem_len, stacksize}
use virtual_processing_unit.NativeMaths.{with_regs}
use virtual_processing_unit.Loader.{Action}
use virtual_processing_unit.Interrupts.{Console}
use virtual_processing_unit.Files.{FileSystem}

-- What actions read and change besides the registers, the memory and the calling tree.
pub record Outside : Type 0 where
  pub console : Console
  pub files : FileSystem

-- `SetMainStack`.
unfoldable pub set_main_stack : Machine → Machine
unfolding get_mem_len
set_main_stack s =
    let top = sub64 (get_mem_len s.mem) 1 in
    with_regs s
      (record s.regs { rbp = top; rsp = top; rsend = sub64 top stacksize; rsbgn = add64 top 1 })

-- `process`; its step counter is the program counter of its registers.
pub record Process : Type 0 where
  pub machine : Machine
  pub outside : Outside
  pub actions : List Action
  pub terminated : Bool

-- The constructor from an engine and its actions.
unfoldable pub process : Machine → Outside → List Action → Process
unfolding set_main_stack
process s o actions = record {
  machine = set_main_stack s;
  outside = o;
  actions = actions;
  terminated = false;
}

-- `addAction`.
unfoldable add_process_action : Action → Process → Process
add_process_action a p = record p { actions = p.actions ++ a ∷ [] }

abbrev pub advance : Machine → Machine
advance s = with_regs s (record s.regs { program_counter = add64 s.regs.program_counter 1 })

module _ (execute_action : Action → Outside → Machine → Option (Machine × Outside)) where
  -- The body of the loop, and of `execute1`: the action at the step counter, and the next step.
  unfoldable pub execute_step : Process → Option Process
  execute_step p = do
    a ← get_elem? p.actions p.machine.regs.program_counter
    (s, o) ← execute_action a p.outside p.machine
    some (record p { machine = advance s; outside = o })

  -- The test of the loop.
  unfoldable pub goes_on : Process → Bool
  goes_on p =
      ltb p.machine.regs.program_counter (length p.actions) && not p.machine.regs.stop_requested

  -- `process::execute`, for at most `fuel` rounds of the loop.
  unfoldable pub execute : ℕ → Process → Option Process
  unfolding goes_on execute_step
  execute zero p = some p
  execute (suc fuel) p =
      let rest = λ (p' : Process). execute fuel p' in
      if goes_on p then execute_step p >>= rest else some (record p { terminated = true })

  -- `process::execute1`.
  unfoldable pub execute1 : Process → Option Process
  unfolding execute_step
  execute1 p =
      if p.machine.regs.stop_requested
      then some (record p { terminated = true })
      else if ltb p.machine.regs.program_counter (length p.actions)
      then execute_step p
      else some (record p { terminated = true })
