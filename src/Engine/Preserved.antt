-- ===== src/Engine/Preserved.antt =====
-- Actions/v_engine.cpp: from the rounds of the loop to the loop.
use virtual_processing_unit.Prelude.{
  ℕ, zero, suc, ◌≡◌, true, Option, some, ◌>>=◌, subst, get_elem?, if-branch, inl, inr, bind-some,
  some-injective,
}
use virtual_processing_unit.Memory.{Machine}
use virtual_processing_unit.Loader.{Action}
use virtual_processing_unit.Engine.{Outside, Process, advance, execute_step, goes_on, execute}

module _ (execute_action : Action → Outside → Machine → Option (Machine × Outside)) where
  -- A round runs an action of the process.
  pub execute_step-some :
      (p p' : Process)
      → execute_step execute_action p ≡ some p'
      → (a : Action) × (s : Machine) × (o : Outside) × (get_elem? p.actions
            p.machine.regs.program_counter
          ≡ some a)
        × (execute_action a p.outside p.machine ≡ some (s, o))
        × (record p { machine = advance s; outside = o } ≡ p')
  unfolding execute_step
  execute_step-some p p' h =
      let (a, found, h₁) = bind-some (get_elem? p.actions p.machine.regs.program_counter) _ p' h in
      let ((s, o), ran, h₂) = bind-some (execute_action a p.outside p.machine) _ p' h₁ in
      (a, s, o, found, ran, some-injective (record p { machine = advance s; outside = o }) p' h₂)

  -- A relation that holds between a process and what it is after a round, and after it has stopped,
  -- holds between a process and what it is after any number of rounds.
  pub execute-closed :
      (R : Process → Process → Type 0)
      → ((p : Process) → R p p)
      → ((p q r : Process) → R p q → R q r → R p r)
      → ((p p' : Process) → execute_step execute_action p ≡ some p' → R p p')
      → ((p : Process) → R p (record p { terminated = true }))
      → (fuel : ℕ) (p p' : Process) → execute execute_action fuel p ≡ some p'
      → R p p'
  unfolding execute
  execute-closed R same trans step stop zero p p' h = subst (R p) (some-injective p p' h) (same p)
  execute-closed R same trans step stop (suc fuel) p p' h =
      elim (if-branch (goes_on execute_action p)
        (execute_step execute_action p >>= execute execute_action fuel)
        (some (record p { terminated = true })) (some p') h) [
          | inl (go, ran) ↦
              let (q, one, rest) =
                bind-some (execute_step execute_action p) (execute execute_action fuel) p' ran in
              trans p q p' (step p q one) (execute-closed R same trans step stop fuel q p' rest)
          | inr (halt, ended) ↦
              subst (R p) (some-injective (record p { terminated = true }) p' ended) (stop p)
        ]
