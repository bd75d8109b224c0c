-- ===== src/Engine/Loop.antt =====
-- Actions/v_engine.cpp: the stack of a new process, and its loop against single steps.
use virtual_processing_unit.Prelude.{
  ℕ, zero, suc, ◌<◌, ◌^◌, ◌≡◌, refl, ap, ◌∙◌, sym, arith, true, false, Option, some, ◌>>=◌, ltb,
  if◌then◌else◌, length, get_elem?, Bool-cases, Option-cases, bind-some, some-injective, inl, inr,
}
use virtual_processing_unit.Memory.{Machine, get_mem_len, stacksize}
use virtual_processing_unit.Memory.Stack.{alloc}
use virtual_processing_unit.Memory.Stack.RoundTrip.{IsStack, Room}
use virtual_processing_unit.Loader.{Action}
use virtual_processing_unit.Engine.{
  Outside, set_main_stack, Process, advance, execute_step, goes_on, execute, execute1,
}

-- A process whose memory is larger than a stack begins with an empty, well-formed stack of that
-- size, at the end of the memory.
pub set_main_stack-IsStack :
    (s : Machine)
    → stacksize < alloc s.mem
    → alloc s.mem < 2 ^ 63
    → IsStack (set_main_stack s)
      × Room (set_main_stack s) stacksize
      × ((set_main_stack s).regs.rsp ≡ (set_main_stack s).regs.rbp)
      × ((set_main_stack s).regs.rsbgn ≡ alloc s.mem)
unfolding set_main_stack get_mem_len
set_main_stack-IsStack s big small = (omega arith, omega arith, refl, omega arith)

module _ (execute_action : Action → Outside → Machine → Option (Machine × Outside)) where
  -- Single steps, until the process has terminated.
  unfoldable pub steps : ℕ → Process → Option Process
  steps zero p = some p
  steps (suc n) p =
      let rest = λ (p' : Process). steps n p' in
      if p.terminated then some p else execute1 execute_action p >>= rest

  steps_terminated : (n : ℕ) (p : Process) → p.terminated ≡ true → steps n p ≡ some p
  unfolding steps
  steps_terminated zero p e = refl
  steps_terminated (suc n) p e = rw e refl

  execute_step-terminated :
      (p p' : Process) → execute_step execute_action p ≡ some p' → p'.terminated ≡ p.terminated
  unfolding execute_step
  execute_step-terminated p p' h =
      let (a, found, h₁) = bind-some (get_elem? p.actions p.machine.regs.program_counter) _ p' h in
      let ((s, o), ran, h₂) = bind-some (execute_action a p.outside p.machine) _ p' h₁ in
      ap (λ (q : Process). q.terminated)
        (sym (some-injective (record p { machine = advance s; outside = o }) p' h₂))

  -- The test of the loop against the tests of `execute1`.
  pub execute1-goes_on :
      (p : Process)
      → execute1 execute_action p ≡ (
          if goes_on execute_action p
          then execute_step execute_action p
          else some (record p { terminated = true }))
  unfolding execute1 goes_on
  execute1-goes_on p = elim (Bool-cases p.machine.regs.stop_requested) [
    | inl stop ↦ elim (Bool-cases (ltb p.machine.regs.program_counter (length p.actions))) [
      | inl more ↦ rw (stop, more) refl
      | inr none_left ↦ rw (stop, none_left) refl
    ]
    | inr runs ↦ elim (Bool-cases (ltb p.machine.regs.program_counter (length p.actions))) [
      | inl more ↦ rw (runs, more) refl
      | inr none_left ↦ rw (runs, none_left) refl
    ]
  ]

  steps-live :
      (n : ℕ) (p : Process)
      → p.terminated ≡ false
      → steps (suc n) p ≡ (execute1 execute_action p >>= steps n)
  unfolding steps
  steps-live n p live = rw live refl

  -- `execute` does what `execute1`, called until the process has terminated, does, for every number
  -- of rounds.
  pub execute-steps :
      (n : ℕ) (p : Process) → p.terminated ≡ false → execute execute_action n p ≡ steps n p
  unfolding execute steps
  execute-steps zero p live = refl
  execute-steps (suc n) p live =
      rw (steps-live n p live, execute1-goes_on p)
        (elim (Bool-cases (goes_on execute_action p)) [
          | inr halt ↦ rw halt (sym (steps_terminated n (record p { terminated = true }) refl))
          | inl go ↦ elim (Option-cases (execute_step execute_action p)) [
            | inl undefined ↦ rw (go, undefined) refl
            | inr (p', ran) ↦
                rw (go, ran) (execute-steps n p' (execute_step-terminated p p' ran ∙ live))
          ]
        ])
