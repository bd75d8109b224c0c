-- ===== src/Engine/Termination.antt =====
-- Actions/v_engine.cpp: the process loop on programs that do not jump back.
use virtual_processing_unit.Prelude.{
  ℕ, zero, suc, ◌+◌, ◌≤◌, ◌<◌, ◌^◌, ◌≡◌, refl, ap, ◌∙◌, arith, true, false, Option, some, List, [],
  ◌∷◌, length, get_elem?, Bool-cases, inl, inr,
}
use virtual_processing_unit.Memory.{Machine}
use virtual_processing_unit.Loader.{Action}
use virtual_processing_unit.Engine.{Outside, Process, advance, execute_step, goes_on, execute}

get_elem?-some :
    {A : Type 0} (xs : List A) (n : ℕ) → n < length xs → (x : A) × (get_elem? xs n ≡ some x)
get_elem?-some [] n h = absurd (omega arith)
get_elem?-some (x ∷ xs) zero h = (x, refl)
get_elem?-some (x ∷ xs) (suc n) h = get_elem?-some xs n (omega arith)

module _ (execute_action : Action → Outside → Machine → Option (Machine × Outside)) where
  -- A program that never jumps back, as long as its machine is `Good`: the action at the step
  -- counter is defined, leaves the counter where it is or moves it on by less than half of the range,
  -- and leaves the machine good for the next step.
  unfoldable pub IsForward : (Machine → Type 0) → List Action → Type 0
  IsForward Good actions =
      (a : Action) (o : Outside) (s : Machine)
      → get_elem? actions s.regs.program_counter ≡ some a
      → Good s
      → (t : Machine) × (o' : Outside) × (execute_action a o s ≡ some (t, o'))
        × Good (advance t)
        × (s.regs.program_counter ≤ t.regs.program_counter)
        × (t.regs.program_counter < s.regs.program_counter + 2 ^ 63)

  -- A process with such a program, of a size that its counter can hold, on a good machine.
  unfoldable pub IsReady : (Machine → Type 0) → Process → Type 0
  IsReady Good p = IsForward Good p.actions × (length p.actions < 2 ^ 63) × Good p.machine

  pub forward_step :
      (Good : Machine → Type 0) (p : Process)
      → IsReady Good p
      → p.machine.regs.program_counter < length p.actions
      → (p' : Process) × (execute_step execute_action p ≡ some p')
        × IsReady Good p'
        × (p'.actions ≡ p.actions)
        × (p.machine.regs.program_counter < p'.machine.regs.program_counter)
  unfolding execute_step IsForward IsReady
  forward_step Good p (forward, size, good) more =
      let (a, found) = get_elem?-some p.actions p.machine.regs.program_counter more in
      let (t, o', ran, good', up, near) = forward a p.outside p.machine found good in
      (
        record p { machine = advance t; outside = o' },
        rw (found, ran) refl,
        (forward, size, good'),
        refl,
        omega arith,
      )

  pub goes_on-lt :
      (p : Process)
      → goes_on execute_action p ≡ true
      → p.machine.regs.program_counter < length p.actions
  unfolding goes_on
  goes_on-lt p h = ground arith

  pub execute-halts :
      (fuel : ℕ) (p : Process)
      → goes_on execute_action p ≡ false
      → execute execute_action (suc fuel) p ≡ some (record p { terminated = true })
  unfolding execute
  execute-halts fuel p h = rw h refl

  pub execute-goes_on :
      (fuel : ℕ) (p p' : Process)
      → goes_on execute_action p ≡ true
      → execute_step execute_action p ≡ some p'
      → execute execute_action (suc fuel) p ≡ execute execute_action fuel p'
  unfolding execute
  execute-goes_on fuel p p' h ran = rw (h, ran) refl

  -- As many rounds as there are actions after the step counter, and one, are enough for a process to
  -- terminate, if there is a property of machines that its machine has and under which the action at
  -- the step counter is always defined, moves the counter forward by less than 2 ^ 63 if at all and
  -- keeps the property, and if there are fewer than 2 ^ 63 actions.
  pub execute-IsForward :
      (fuel : ℕ) (Good : Machine → Type 0) (p : Process)
      → IsReady Good p
      → length p.actions ≤ p.machine.regs.program_counter + fuel
      → (p' : Process) × (execute execute_action (suc fuel) p ≡ some p') × (p'.terminated ≡ true)
  execute-IsForward zero Good p ready enough = elim (Bool-cases (goes_on execute_action p)) [
    | inl go ↦ absurd (omega (arith, goes_on-lt p go))
    | inr halt ↦ (record p { terminated = true }, execute-halts zero p halt, refl)
  ]
  execute-IsForward (suc fuel) Good p ready enough = elim (Bool-cases (goes_on execute_action p)) [
    | inl go ↦
        let (p', ran, ready', same, up) = forward_step Good p ready (goes_on-lt p go) in
        let more : length p'.actions ≡ length p.actions = ap length same in
        let (end, e, t) = execute-IsForward fuel Good p' ready' (omega (arith, more)) in
        (end, execute-goes_on (suc fuel) p p' go ran ∙ e, t)
    | inr halt ↦ (record p { terminated = true }, execute-halts (suc fuel) p halt, refl)
  ]
