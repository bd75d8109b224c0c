-- ===== src/Scheduler.antt =====
-- Actions/threading.cpp: `engine`, which runs several processes in turns. The calling tree of
-- Actions/process_symbols.cpp is a global variable: the processes share it.
pub mod Termination
use virtual_processing_unit.Prelude.{
  ℕ, zero, suc, ◌+◌, Bool, true, false, Option, none, some, ◌>>=◌, List, [], ◌∷◌, if◌then◌else◌,
  ◌++◌, length, take, drop, ltb, get_elem?,
}
use virtual_processing_unit.Memory.{Machine}
use virtual_processing_unit.Loader.{Action}
use virtual_processing_unit.Engine.{Outside, Process, execute, execute1}

-- What the processes share: the calling tree, the terminal and the files.
pub record Shared : Type 0 where
  pub calling_tree : List ℕ
  pub outside : Outside

-- A process that finds what the processes share, and what it leaves of it.
abbrev pub resume : Shared → Process → Process
resume common p = record p {
  machine = record p.machine { calling_tree = common.calling_tree };
  outside = common.outside;
}

abbrev pub left_by : Process → Shared
left_by p = record { calling_tree = p.machine.calling_tree; outside = p.outside }

module _ (execute_action : Action → Outside → Machine → Option (Machine × Outside)) where
  -- One step of a process, which finds what they share as it is and leaves it to the others.
  unfoldable pub turn : Shared → Process → Option (Process × Shared)
  turn common p = do p' ← execute1 execute_action (resume common p); some (p', left_by p')

  -- The `for` loop of `start`. A process that has terminated is erased, and the index goes on: the
  -- process behind it, which takes its place, misses its turn.
  unfoldable pub round : Shared → List Process → Option (List Process × Shared)
  unfolding turn
  round common [] = some ([], common)
  round common (p ∷ []) = do
    (p', common') ← turn common p
    some (if p'.terminated then [] else p' ∷ [], common')
  round common (p ∷ q ∷ processes) = do
    (p', common') ← turn common p
    let skip =
        λ (t : Shared). do (others, common'') ← round t processes; some (q ∷ others, common'')
    let next = λ (t : Shared). do
      (others, common'') ← round t (q ∷ processes)
      some (p' ∷ others, common'')
    if p'.terminated then skip common' else next common'

  -- `start` with threading, for at most `fuel` rounds: `allTerminated` is never set to true, so that
  -- it ends when there are no processes left.
  unfoldable pub start : ℕ → Shared → List Process → Option (List Process × Shared)
  unfolding round
  start zero common processes = some (processes, common)
  start (suc fuel) common [] = some ([], common)
  start (suc fuel) common (p ∷ processes) = do
    (processes', common') ← round common (p ∷ processes)
    start fuel common' processes'

  -- `start` without threading: every process runs to its end, for at most `fuel` rounds of its loop.
  unfoldable pub start_in_order : ℕ → Shared → List Process → Option (List Process × Shared)
  start_in_order fuel common [] = some ([], common)
  start_in_order fuel common (p ∷ processes) = do
    p' ← execute execute_action fuel (resume common p)
    (others, common') ← start_in_order fuel (left_by p') processes
    some (p' ∷ others, common')

-- `pushProcess` gives the index of the new process.
unfoldable pub push_process : Process → List Process → List Process × ℕ
push_process p processes = (processes ++ p ∷ [], length processes)

-- `popProcess`: without processes it is undefined behaviour.
unfoldable pub pop_process : List Process → Option (List Process)
pop_process [] = none
pop_process (p ∷ processes) = some (take (length processes) (p ∷ processes))

-- `getProcessById`
unfoldable pub get_process_by_id : ℕ → List Process → Option Process
get_process_by_id id processes = get_elem? processes id

-- `deleteProcessById`
unfoldable pub delete_process_by_id : ℕ → List Process → List Process
delete_process_by_id id processes =
    if ltb id (length processes) then take id processes ++ drop (suc id) processes else processes
