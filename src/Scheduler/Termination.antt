-- ===== src/Scheduler/Termination.antt =====
-- Actions/threading.cpp: the turns of processes that do not jump back.
use virtual_processing_unit.Prelude.{
  ℕ, zero, suc, ◌+◌, ◌-◌, ◌≤◌, ◌<◌, ◌≡◌, refl, ap, sym, subst, arith, true, false, Option, some,
  List, [], ◌∷◌, length, All, Bool-cases, inl, inr, ◌⊎◌,
}
use virtual_processing_unit.Memory.{Machine}
use virtual_processing_unit.Loader.{Action}
use virtual_processing_unit.Engine.{Outside, Process, goes_on, execute1}
use virtual_processing_unit.Engine.Loop.{execute1-goes_on}
use virtual_processing_unit.Engine.Termination.{IsReady, goes_on-lt, forward_step}
use virtual_processing_unit.Scheduler.{Shared, resume, left_by, turn, round, start}

-- How many turns a process can still take.
abbrev pub turns_left : Process → ℕ
turns_left p = suc (length p.actions - p.machine.regs.program_counter)

abbrev pub total : List Process → ℕ
total [] = 0
total (p ∷ processes) = turns_left p + total processes

module _ (execute_action : Action → Outside → Machine → Option (Machine × Outside))
    (Good : List Action → Machine → Type 0)
    (shares : (tree : List ℕ) (actions : List Action) (s : Machine)
      → Good actions s
      → Good actions (record s { calling_tree = tree })) where
  -- A process that never jumps back, as long as its machine is good for its program. What is good for a
  -- program is so for every calling tree, which the other processes may change.
  abbrev pub Ready : Process → Type 0
  Ready p = IsReady execute_action (Good p.actions) p

  resume-Ready : (common : Shared) (p : Process) → Ready p → Ready (resume common p)
  unfolding IsReady
  resume-Ready common p (forward, size, good) =
      (forward, size, shares common.calling_tree p.actions p.machine good)

  execute1-IsForward :
      (p : Process)
      → Ready p
      → (p' : Process) × (execute1 execute_action p ≡ some p')
        × ((p'.terminated ≡ true) ⊎ (Ready p' × (turns_left p' < turns_left p)))
  execute1-IsForward p ready = elim (Bool-cases (goes_on execute_action p)) [
    | inr halt ↦ (
      record p { terminated = true },
      rw (execute1-goes_on execute_action p, halt) refl,
      inl refl,
    )
    | inl go ↦
        let more = goes_on-lt execute_action p go in
        let (p', ran, ready', same, up) =
          forward_step execute_action (Good p.actions) p ready more in
        let size : length p'.actions ≡ length p.actions = ap length same in
        (
          p',
          rw (execute1-goes_on execute_action p, go) ran,
          inr (
            subst (λ actions. IsReady execute_action (Good actions) p') (sym same) ready',
            omega (arith, size),
          ),
        )
  ]

  turn-IsForward :
      (common : Shared) (p : Process)
      → Ready p
      → (p' : Process) × (common' : Shared) × (turn execute_action common p ≡ some (p', common'))
        × ((p'.terminated ≡ true)
            ⊎ ((p'.terminated ≡ false) × Ready p' × (turns_left p' < turns_left p)))
  unfolding turn
  turn-IsForward common p ready =
      let (p', ran, after) = execute1-IsForward (resume common p) (resume-Ready common p ready) in
      (
        p',
        left_by p',
        rw ran refl,
        elim after [
          | inl done ↦ inl done
          | inr (size, fewer) ↦ elim (Bool-cases p'.terminated) [
            | inl done ↦ inl done
            | inr live ↦ inr (live, size, fewer)
          ]
        ],
      )

  -- A round of some processes leaves fewer turns.
  abbrev Progress : Shared → List Process → ℕ → Type 0
  Progress common processes fewer =
      (processes' : List Process) × (common' : Shared) × (round execute_action common processes
        ≡ some (processes', common'))
      × All Ready processes'
      × (total processes' + fewer ≤ total processes)

  round_last : (common : Shared) (p : Process) → Ready p → Progress common (p ∷ []) 1
  unfolding round
  round_last common p ready =
      let (p', common', ran, after) = turn-IsForward common p ready in
      elim after [
        | inl done ↦ ([], common', rw (ran, done) refl, tt, omega arith)
        | inr (live, size, fewer) ↦ (p' ∷ [], common', rw (ran, live) refl, (size, tt), omega arith)
      ]

  round_skip :
      (common common' : Shared) (p p' q : Process) (processes : List Process)
      → Ready q
      → turn execute_action common p ≡ some (p', common')
      → p'.terminated ≡ true
      → Progress common' processes 0
      → Progress common (p ∷ q ∷ processes) 1
  unfolding round
  round_skip common common' p p' q processes ready ran done (others, common'', e, readys, fewer) =
      (q ∷ others, common'', rw (ran, done, e) refl, (ready, readys), omega arith)

  round_next :
      (common common' : Shared) (p p' q : Process) (processes : List Process)
      → Ready p'
      → turns_left p' < turns_left p
      → turn execute_action common p ≡ some (p', common')
      → p'.terminated ≡ false
      → Progress common' (q ∷ processes) 1
      → Progress common (p ∷ q ∷ processes) 1
  unfolding round
  round_next common common' p p' q processes ready less ran live
        (others, common'', e, readys, fewer) =
      (p' ∷ others, common'', rw (ran, live, e) refl, (ready, readys), omega arith)

  round_none : (common : Shared) → Progress common [] 0
  unfolding round
  round_none common = ([], common, refl, tt, omega arith)

  weaken :
      (common : Shared) (processes : List Process)
      → Progress common processes 1
      → Progress common processes 0
  weaken common processes (others, common', e, readys, fewer) =
      (others, common', e, readys, omega arith)

  round-IsForward :
      (common : Shared) (p : Process) (processes : List Process)
      → Ready p
      → All Ready processes
      → Progress common (p ∷ processes) 1
  round-IsForward common p [] ready readys = round_last common p ready
  round-IsForward common p (q ∷ []) ready (ready', readys) =
      let (p', common', ran, after) = turn-IsForward common p ready in
      elim after [
        | inl done ↦ round_skip common common' p p' q [] ready' ran done (round_none common')
        | inr (live, size, fewer) ↦
            round_next common common' p p' q [] size fewer ran live
              (round-IsForward common' q [] ready' tt)
      ]
  round-IsForward common p (q ∷ r ∷ processes) ready (ready', (ready'', readys)) =
      let (p', common', ran, after) = turn-IsForward common p ready in
      elim after [
        | inl done ↦
            round_skip common common' p p' q (r ∷ processes) ready' ran done
              (weaken common' (r ∷ processes) (round-IsForward common' r processes ready'' readys))
        | inr (live, size, fewer) ↦
            round_next common common' p p' q (r ∷ processes) size fewer ran live
              (round-IsForward common' q (r ∷ processes) ready' (ready'', readys))
      ]

  -- With as many rounds as there are turns left every process terminates and is erased, if there is a
  -- property of machines for each program, whatever the calling tree, that the machine of a process has
  -- and under which the action at its step counter is always defined, moves the counter forward by less
  -- than 2 ^ 63 if at all and keeps the property. No program has 2 ^ 63 actions.
  pub start-IsForward :
      (fuel : ℕ) (common : Shared) (processes : List Process)
      → All Ready processes
      → total processes ≤ fuel
      → (common' : Shared) × (start execute_action fuel common processes ≡ some ([], common'))
  unfolding start
  start-IsForward zero common [] readys enough = (common, refl)
  start-IsForward zero common (p ∷ processes) readys enough = absurd (omega arith)
  start-IsForward (suc fuel) common [] readys enough = (common, refl)
  start-IsForward (suc fuel) common (p ∷ processes) (ready, readys) enough =
      let (processes', common', e, readys', fewer) =
        round-IsForward common p processes ready readys in
      let (common'', done) = start-IsForward fuel common' processes' readys' (omega arith) in
      (common'', rw e done)
