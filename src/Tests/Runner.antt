-- ===== src/Tests/Runner.antt =====
-- Whole processes at concrete programs.
use virtual_processing_unit.Prelude.{
  ◌≡◌, refl, true, false, arith, Option, none, some, List, [], ◌∷◌, ltb, ◌==◌, if◌then◌else◌, map,
}
use virtual_processing_unit.Bytes.{atoull}
use virtual_processing_unit.Registers.{Storage, Letter, get_num}
use virtual_processing_unit.Memory.{Machine, Memory, init, mg, read}
use virtual_processing_unit.Args.{ArgTuple, arg_to_ull}
use virtual_processing_unit.Extended.{FloatText}
use virtual_processing_unit.VirtualActions.{
  VirtualAction, int, set, add, push, pop, lcall, rflen, hlt, opcode,
}
use virtual_processing_unit.ProcessSymbols.{p_hlt}
use virtual_processing_unit.NativeMaths.{with_regs}
use virtual_processing_unit.Interrupts.{int_call, pass, handle_display}
use virtual_processing_unit.Loader.{Action, decode_action}
use virtual_processing_unit.Loader.Program.{load_all}
use virtual_processing_unit.Loader.Executable.{link}
use virtual_processing_unit.Svasm.{ok}
use virtual_processing_unit.Assembler.{assemble}
use virtual_processing_unit.Engine.{
  Outside, Process, advance, process, execute, execute_step, goes_on,
}
use virtual_processing_unit.Engine.Loop.{execute-steps, steps}
use virtual_processing_unit.ActionsEngine.{execute_int, handler, call_handler, execute_action}
use virtual_processing_unit.ActionsEngine.Terminal.{IsLater}
use virtual_processing_unit.ActionsEngine.Effects.{execute-IsLater, execute-files}
use virtual_processing_unit.ActionsEngine.Control.{execute-rflen, execute-hlt}
use virtual_processing_unit.Runner.{new_machine, run_file}
use virtual_processing_unit.Runner.Assembled.{run_file-assemble}
use virtual_processing_unit.Tests.Memory.{some_regs, some_memory}
use virtual_processing_unit.Tests.Actions.{unit, host}
use virtual_processing_unit.Tests.Engine.{some_outside}
use virtual_processing_unit.Tests.Svasm.{
  source, some_actions, no_bytes, some_output, preprocessed, compiled,
}

abbrev pub float_text : FloatText
float_text = record { llround = λ v. 0; show = λ v. []; read = λ t. 0 }

abbrev pub no_network : VirtualAction → ArgTuple → Machine → Option Machine
no_network action arg s = none

abbrev held : Letter → Storage
held l = record { l = 0xcd; h = 0xcd; eh = 0xcdcd; rh = 0xcdcdcdcd }

-- The end of a line is displayed, and the process stops. The word at 0 is the code of the interrupt.
abbrev display_machine : Machine
display_machine = record {
  regs = record some_regs { a = record { l = 2; h = 0; eh = 0; rh = 0 }; program_counter = 0 };
  mem = record some_memory { cells = λ a. if a == 7 then 5 else 0 };
  calling_tree = [];
}

abbrev display_actions : List Action
display_actions =
    record { act = int; value_ptr = some (record { vaddr = 0; vsize = 8; vopt = 0 }) }
    ∷ record { act = hlt; value_ptr = none }
    ∷ []

abbrev pub display_process : Process
display_process = record {
  machine = display_machine;
  outside = some_outside;
  actions = display_actions;
  terminated = false;
}

abbrev displayed : Process
displayed = record display_process {
  machine = advance (
      with_regs display_machine
        (record display_machine.regs { stop_requested = true; program_counter = 1 }));
  outside = record some_outside { console = record { input = []; output = 10 ∷ [] } };
  terminated = true;
}

display_process-runs :
    execute (execute_action unit float_text host no_network) 3 display_process ≡ some displayed
unfolding execute execute_step goes_on execute_action call_handler handler execute_int int_call pass
    handle_display arg_to_ull p_hlt mg read get_num atoull
display_process-runs = refl

execute-IsLater_example :
    IsLater (record { input = []; output = [] }) (record { input = []; output = 10 ∷ [] })
execute-IsLater_example =
    execute-IsLater unit float_text host no_network 3 display_process displayed display_process-runs

execute-files_example : some_outside.files ≡ displayed.outside.files
execute-files_example =
    execute-files unit float_text host no_network 3 display_process displayed
      ((λ e. cc), ((λ e. cc), tt)) display_process-runs

execute-steps_example :
    execute (execute_action unit float_text host no_network) 3 display_process
    ≡ steps (execute_action unit float_text host no_network) 3 display_process
execute-steps_example =
    execute-steps (execute_action unit float_text host no_network) 3 display_process refl

execute-rflen_example :
    (a : Action) × (decode_action host.fresh (opcode rflen) [] some_memory
      ≡ some (some a, [], some_memory))
    × ((o : Outside) (s : Machine)
        → execute_action unit float_text host no_network a o s
          ≡ (if ltb 2 s.regs.exec_level then some (s, o) else none))
execute-rflen_example = execute-rflen unit float_text host no_network host.fresh [] some_memory

abbrev stop_process : Process
stop_process = record display_process {
  actions = record { act = hlt; value_ptr = none } ∷ display_actions;
}

execute-hlt_example :
    execute (execute_action unit float_text host no_network) 7 stop_process
    ≡ some (record stop_process {
      machine =
          advance
            (with_regs display_machine (record display_machine.regs { stop_requested = true }));
      terminated = true;
    })
unfolding goes_on
execute-hlt_example = execute-hlt unit float_text host no_network 5 stop_process none refl refl refl

run_file-assemble_example :
    (loaded : List Action) × (m : Memory) × (assemble no_bytes (some source)
      ≡ ok (link some_output))
    × (load_all no_bytes host.fresh some_actions init ≡ some (loaded, m))
    × (map (λ a. a.act) loaded ≡ set ∷ push ∷ set ∷ add ∷ pop ∷ lcall ∷ [])
    × (run_file unit float_text host no_network held 9 some_outside (link some_output)
        ≡ execute
            (execute_action unit float_text host no_network)
            9
            (process (new_machine held m) some_outside loaded))
run_file-assemble_example =
    run_file-assemble unit float_text host no_network held no_bytes (λ raw bs e. cc) (some source)
      some_actions none some_output 9 some_outside (omega arith) (omega arith) preprocessed compiled
