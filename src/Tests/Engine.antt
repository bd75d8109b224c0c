-- ===== src/Tests/Engine.antt =====
-- A process at a concrete program.
use virtual_processing_unit.Prelude.{◌≡◌, arith, false, none, []}
use virtual_processing_unit.Memory.{Machine, init, stacksize}
use virtual_processing_unit.Memory.Stack.RoundTrip.{IsStack, Room}
use virtual_processing_unit.Engine.{Outside, set_main_stack}
use virtual_processing_unit.Engine.Loop.{set_main_stack-IsStack}
use virtual_processing_unit.Tests.Memory.{some_regs}

abbrev new_machine : Machine
new_machine = record {
  regs = record some_regs { program_counter = 0 };
  mem = init;
  calling_tree = [];
}

abbrev pub some_outside : Outside
some_outside = record {
  console = record { input = []; output = [] };
  files = record { content = λ name. none; denied = λ name. false };
}

set_main_stack-IsStack_example :
    IsStack (set_main_stack new_machine)
    × Room (set_main_stack new_machine) stacksize
    × ((set_main_stack new_machine).regs.rsp ≡ (set_main_stack new_machine).regs.rbp)
    × ((set_main_stack new_machine).regs.rsbgn ≡ 0x101000)
unfolding init
set_main_stack-IsStack_example = set_main_stack-IsStack new_machine (omega arith) (omega arith)
