-- ===== src/Tests/Termination.antt =====
-- Programs that do not jump back, on the handlers of the actions engine.
use virtual_processing_unit.Prelude.{
  ℕ, zero, suc, ◌+◌, ◌%◌, ◌^◌, ◌≤◌, ◌<◌, ◌≡◌, refl, sym, ◌∙◌, Bool-cases, inl, inr, subst, arith,
  true, false, Option, none, some, List, [], ◌∷◌, ◌==◌, if◌then◌else◌, get_elem?, some-injective,
}
use virtual_processing_unit.Bytes.{atoull}
use virtual_processing_unit.Registers.{
  Regs, rx, la, get_num, set_num, to_reg_id, is_num_reg, access_num,
}
use virtual_processing_unit.Memory.{Machine, Memory, mg, read}
use virtual_processing_unit.Args.{att_to_reg_id, arg_to_ull}
use virtual_processing_unit.VirtualActions.{inc, jmp, hlt}
use virtual_processing_unit.NativeMaths.{b_step, int_op}
use virtual_processing_unit.ProcessSymbols.{p_jmp, p_hlt}
use virtual_processing_unit.Loader.{Action}
use virtual_processing_unit.Engine.{Outside, Process, advance, execute}
use virtual_processing_unit.Engine.Termination.{IsForward, IsReady, execute-IsForward}
use virtual_processing_unit.Scheduler.{Shared, start}
use virtual_processing_unit.Scheduler.Termination.{start-IsForward}
use virtual_processing_unit.ActionsEngine.{handler, call_handler, execute_action}
use virtual_processing_unit.Tests.Memory.{some_regs, some_memory}
use virtual_processing_unit.Tests.Actions.{unit, host}
use virtual_processing_unit.Tests.Engine.{some_outside}
use virtual_processing_unit.Tests.Runner.{float_text, no_network}

-- The word at 0 names RAX, the word at 8 is 1.
abbrev jump_memory : Memory
jump_memory = record some_memory { cells = λ a. if a == 7 then 0x11 else if a == 15 then 1 else 0 }

abbrev jump_machine : Regs → List ℕ → Machine
jump_machine r tree = record { regs = r; mem = jump_memory; calling_tree = tree }

-- Count, jump over the second count, and stop.
abbrev inc_rax : Action
inc_rax = record { act = inc; value_ptr = some (record { vaddr = 0; vsize = 8; vopt = 0 }) }

abbrev jmp_one : Action
jmp_one = record { act = jmp; value_ptr = some (record { vaddr = 8; vsize = 8; vopt = 0 }) }

abbrev stop : Action
stop = record { act = hlt; value_ptr = none }

abbrev jump_actions : List Action
jump_actions = inc_rax ∷ jmp_one ∷ inc_rax ∷ stop ∷ []

abbrev run : Action → Outside → Machine → Option (Machine × Outside)
run = execute_action unit float_text host no_network

abbrev Good : Machine → Type 0
Good s = s.mem ≡ jump_memory

-- What `IsForward` asks of an action.
abbrev Forward : Action → Outside → Machine → Type 0
Forward a o s =
    (t : Machine) × (o' : Outside) × (run a o s ≡ some (t, o'))
    × Good (advance t)
    × (s.regs.program_counter ≤ t.regs.program_counter)
    × (t.regs.program_counter < s.regs.program_counter + 2 ^ 63)

inc_rax-Forward : (o : Outside) (r : Regs) (tree : List ℕ) → Forward inc_rax o (jump_machine r tree)
unfolding execute_action call_handler handler b_step int_op att_to_reg_id to_reg_id atoull mg read
    is_num_reg access_num set_num
inc_rax-Forward o r tree = (
  jump_machine (set_num (rx la) ((get_num (rx la) r + 1) % 2 ^ 64) r) tree,
  o,
  refl,
  refl,
  omega arith,
  omega arith,
)

jmp_one-Forward :
    (o : Outside) (r : Regs) (tree : List ℕ)
    → r.program_counter ≡ 1
    → Forward jmp_one o (jump_machine r tree)
unfolding execute_action call_handler handler p_jmp arg_to_ull atoull mg read
jmp_one-Forward o r tree e = (
  jump_machine (record r { program_counter = (r.program_counter + 1) % 2 ^ 64 }) tree,
  o,
  refl,
  refl,
  omega arith,
  omega arith,
)

p_hlt-same :
    (s : Machine)
    → ((p_hlt s).mem ≡ s.mem) × ((p_hlt s).regs.program_counter ≡ s.regs.program_counter)
unfolding p_hlt
p_hlt-same s = elim (Bool-cases (s.regs.exec_level == 0)) [
  | inl kernel ↦ rw kernel (refl, refl)
  | inr user ↦ rw user (refl, refl)
]

stop-Forward : (o : Outside) (s : Machine) → Good s → Forward stop o s
unfolding execute_action call_handler handler
stop-Forward o s good =
    let (same, at) = p_hlt-same s in
    (p_hlt s, o, refl, same ∙ good, omega (arith, at), omega (arith, at))

each_Forward :
    (n : ℕ) (a : Action) (o : Outside) (r : Regs) (tree : List ℕ)
    → r.program_counter ≡ n
    → get_elem? jump_actions n ≡ some a
    → Forward a o (jump_machine r tree)
each_Forward zero a o r tree e found =
    subst (λ b. Forward b o (jump_machine r tree)) (some-injective inc_rax a found)
      (inc_rax-Forward o r tree)
each_Forward (suc zero) a o r tree e found =
    subst (λ b. Forward b o (jump_machine r tree)) (some-injective jmp_one a found)
      (jmp_one-Forward o r tree e)
each_Forward (suc (suc zero)) a o r tree e found =
    subst (λ b. Forward b o (jump_machine r tree)) (some-injective inc_rax a found)
      (inc_rax-Forward o r tree)
each_Forward (suc (suc (suc zero))) a o r tree e found =
    subst (λ b. Forward b o (jump_machine r tree)) (some-injective stop a found)
      (stop-Forward o (jump_machine r tree) refl)
each_Forward (suc (suc (suc (suc n)))) a o r tree e found = cc

jump_actions-IsForward : IsForward run Good jump_actions
unfolding IsForward
jump_actions-IsForward a o s found good =
    subst (λ m. Forward a o (record { regs = s.regs; mem = m; calling_tree = s.calling_tree }))
      (sym good) (each_Forward s.regs.program_counter a o s.regs s.calling_tree refl found)

abbrev jump_process : Process
jump_process = record {
  machine = jump_machine (record some_regs { program_counter = 0 }) [];
  outside = some_outside;
  actions = jump_actions;
  terminated = false;
}

jump_process-IsReady : IsReady run Good jump_process
unfolding IsReady
jump_process-IsReady = (jump_actions-IsForward, omega arith, refl)

execute-IsForward_example :
    (p' : Process) × (execute run 5 jump_process ≡ some p') × (p'.terminated ≡ true)
execute-IsForward_example =
    execute-IsForward run 4 Good jump_process jump_process-IsReady (omega arith)

start-IsForward_example :
    (common' : Shared) × (start run 10
        (record { calling_tree = []; outside = some_outside })
        (jump_process ∷ jump_process ∷ [])
      ≡ some ([], common'))
start-IsForward_example =
    start-IsForward run (λ actions. Good) (λ tree actions s good. good) 10
      (record { calling_tree = []; outside = some_outside }) (jump_process ∷ jump_process ∷ [])
      (jump_process-IsReady, (jump_process-IsReady, tt)) (omega arith)
