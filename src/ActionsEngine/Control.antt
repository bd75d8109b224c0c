-- ===== src/ActionsEngine/Control.antt =====
-- Actions/process_symbols.cpp, ExtendedSymbols/files.cpp and VirtualExecutableRunner/runner_main.cpp:
-- actions without an argument, from the file to what they do.
use virtual_processing_unit.Prelude.{
  arith, ℕ, suc, ◌≡◌, refl, ◌∙◌, Bool-cases, inl, inr, true, false, Option, none, some, List, ltb,
  if◌then◌else◌, get_elem?,
}
use virtual_processing_unit.Memory.{Memory, Machine}
use virtual_processing_unit.Args.{ArgTuple, Host}
use virtual_processing_unit.Floats.{FloatUnit}
use virtual_processing_unit.VirtualActions.{
  VirtualAction, rflen, hlt, opcode, zero_args_opcodes, opt_arg_ops, action_of_opcode,
}
use virtual_processing_unit.ProcessSymbols.{p_hlt}
use virtual_processing_unit.Extended.{FloatText}
use virtual_processing_unit.Loader.{Action, decode_action, decode_opt}
use virtual_processing_unit.Engine.{Outside, Process, advance, execute_step, goes_on, execute}
use virtual_processing_unit.NativeMaths.{with_regs}
use virtual_processing_unit.Engine.Termination.{execute-halts, execute-goes_on}
use virtual_processing_unit.ActionsEngine.{call_handler, handler, execute_action}

module _ (unit : FloatUnit) (float_text : FloatText) (host : Host)
    (network : VirtualAction → ArgTuple → Machine → Option Machine) where
  -- Wherever `rflen` stands in a file, it is loaded without an argument, from its opcode alone. To
  -- execute it is undefined behaviour on the execution levels that may look at files, and does nothing on the
  -- other.
  pub execute-rflen :
      (fresh : ℕ → ℕ) (data' : List ℕ) (m : Memory)
      → (a : Action) × (decode_action fresh (opcode rflen) data' m ≡ some (some a, data', m))
        × ((o : Outside) (s : Machine)
            → execute_action unit float_text host network a o s
              ≡ (if ltb 2 s.regs.exec_level then some (s, o) else none))
  unfolding execute_action call_handler handler decode_action decode_opt opcode zero_args_opcodes
      opt_arg_ops action_of_opcode
  execute-rflen fresh data' m = (
    record { act = rflen; value_ptr = none },
    refl,
    λ o s. elim (Bool-cases (ltb 2 s.regs.exec_level)) [
      | inl user ↦ rw user refl
      | inr kernel ↦ rw kernel refl
    ],
  )

  abbrev halted : Process → Process
  halted p = record p {
    machine = advance (with_regs p.machine (record p.machine.regs { stop_requested = true }));
  }

  step_hlt :
      (p : Process) (value_ptr : Option ArgTuple)
      → p.machine.regs.exec_level ≡ 0
      → get_elem? p.actions p.machine.regs.program_counter
        ≡ some (record { act = hlt; value_ptr = value_ptr })
      → execute_step (execute_action unit float_text host network) p ≡ some (halted p)
  unfolding execute_step execute_action call_handler handler p_hlt
  step_hlt p value_ptr kernel found = rw (found, kernel) refl

  halted-stops :
      (p : Process) → goes_on (execute_action unit float_text host network) (halted p) ≡ false
  unfolding goes_on
  halted-stops p = ground arith

  -- In kernel mode, a process whose next action is `hlt` terminates within two rounds, whatever
  -- comes behind it: it stands behind the action, it has asked to stop, and nothing else has changed.
  pub execute-hlt :
      (fuel : ℕ) (p : Process) (value_ptr : Option ArgTuple)
      → p.machine.regs.exec_level ≡ 0
      → goes_on (execute_action unit float_text host network) p ≡ true
      → get_elem? p.actions p.machine.regs.program_counter
        ≡ some (record { act = hlt; value_ptr = value_ptr })
      → execute (execute_action unit float_text host network) (suc (suc fuel)) p
        ≡ some (record p {
          machine = advance (with_regs p.machine (record p.machine.regs { stop_requested = true }));
          terminated = true;
        })
  execute-hlt fuel p value_ptr kernel go found =
      execute-goes_on (execute_action unit float_text host network) (suc fuel) p (halted p) go
        (step_hlt p value_ptr kernel found)
      ∙ execute-halts (execute_action unit float_text host network) fuel (halted p) (halted-stops p)
