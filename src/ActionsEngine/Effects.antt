-- ===== src/ActionsEngine/Effects.antt =====
-- Actions/actions_symbols.h and Actions/v_engine.cpp: what a process does to the terminal and to the
-- files.
use virtual_processing_unit.Prelude.{
  ℕ, ◌≡◌, ◌≢◌, refl, ap, subst, ◌∙◌, Bool, true, false, if◌then◌else◌, Option, none, some, List, [],
  ◌∷◌, zero, suc, get_elem?, All, bind-some, some-injective,
}
use virtual_processing_unit.Memory.{Machine}
use virtual_processing_unit.Args.{ArgTuple, Host}
use virtual_processing_unit.Floats.{FloatUnit}
use virtual_processing_unit.VirtualActions.{VirtualAction, int, rfwrite}
use virtual_processing_unit.Extended.{FloatText}
use virtual_processing_unit.Files.{ex_rfwrite}
use virtual_processing_unit.Interrupts.{int_call}
use virtual_processing_unit.Loader.{Action}
use virtual_processing_unit.Engine.{Outside, Process, execute}
use virtual_processing_unit.Engine.Preserved.{execute_step-some, execute-closed}
use virtual_processing_unit.ActionsEngine.{
  within, execute_int, execute_rfwrite, handler, call_handler, execute_action,
}
use virtual_processing_unit.ActionsEngine.Terminal.{
  IsLater, IsLater-refl, IsLater-trans, Moves, int_call-Moves,
}

within-same :
    (o o' : Outside) (m : Option Machine) (s' : Machine) → within o m ≡ some (s', o') → o ≡ o'
within-same o o' m s' h =
    let (t, ran, e) = bind-some m _ (s', o') h in ap (λ r. r.1) (some-injective (t, o) (s', o') e)

-- A handler that does not follow its null pointer.
abbrev unread : Bool → Outside → Machine → Option (Machine × Outside)
unread reads o s = if reads then none else some (s, o)

unread-same :
    (reads : Bool) (o o' : Outside) (s s' : Machine) → unread reads o s ≡ some (s', o') → o ≡ o'
unread-same true o o' s s' h = cc
unread-same false o o' s s' h = ap (λ r. r.1) (some-injective (s, o) (s', o') h)

abbrev pub WritesNone : List Action → Type 0
WritesNone = All (λ (a : Action). a.act ≢ rfwrite)

-- A process keeps its program, and the files if no action of it writes one.
abbrev KeepsFiles : Process → Process → Type 0
KeepsFiles p p' =
    (p.actions ≡ p'.actions) × (WritesNone p.actions → p.outside.files ≡ p'.outside.files)

All-get_elem? :
    {A : Type 0} (P : A → Type 0) (xs : List A) (n : ℕ) (x : A)
    → All P xs
    → get_elem? xs n ≡ some x
    → P x
All-get_elem? P [] n x ws h = cc
All-get_elem? P (y ∷ xs) zero x (w, ws) h = subst P (some-injective y x h) w
All-get_elem? P (y ∷ xs) (suc n) x (w, ws) h = All-get_elem? P xs n x ws h

module _ (unit : FloatUnit) (float_text : FloatText) (host : Host)
    (network : VirtualAction → ArgTuple → Machine → Option Machine) where
  execute_int-IsLater :
      (value_ptr : Option ArgTuple) (o o' : Outside) (s s' : Machine)
      → execute_int unit float_text host network value_ptr o s ≡ some (s', o')
      → IsLater o.console o'.console × (o.files ≡ o'.files)
  unfolding execute_int Moves
  execute_int-IsLater none o o' s s' h =
      let same = unread-same s.regs.interrupts_flag o o' s s' h in
      (
        subst (λ (x : Outside). IsLater o.console x.console) same (IsLater-refl o.console),
        ap (λ (x : Outside). x.files) same,
      )
  execute_int-IsLater (some arg) o o' s s' h =
      let ((t, c), ran, e) =
        bind-some (int_call unit float_text host arg o.console s) _ (s', o') h in
      let same = ap (λ r. r.1) (some-injective (t, record o { console = c }) (s', o') e) in
      (
        subst (λ (x : Outside). IsLater o.console x.console) same
            (int_call-Moves unit float_text host arg o.console s t c ran),
        ap (λ (x : Outside). x.files) same,
      )

  execute_rfwrite-console :
      (value_ptr : Option ArgTuple) (o o' : Outside) (s s' : Machine)
      → execute_rfwrite unit float_text host network value_ptr o s ≡ some (s', o')
      → o.console ≡ o'.console
  unfolding execute_rfwrite
  execute_rfwrite-console none o o' s s' h =
      ap (λ (x : Outside). x.console) (unread-same _ o o' s s' h)
  execute_rfwrite-console (some arg) o o' s s' h =
      let ((t, f), ran, e) = bind-some (ex_rfwrite arg o.files s) _ (s', o') h in
      ap (λ r. r.1.console) (some-injective (t, record o { files = f }) (s', o') e)

  -- What an action does to the outside.
  call_handler-IsLater :
      (action : VirtualAction) (value_ptr : Option ArgTuple) (o o' : Outside) (s s' : Machine)
      → call_handler unit float_text host network action value_ptr o s ≡ some (s', o')
      → IsLater o.console o'.console
  unfolding call_handler
  call_handler-IsLater int value_ptr o o' s s' h = (execute_int-IsLater value_ptr o o' s s' h).0
  call_handler-IsLater rfwrite value_ptr o o' s s' h =
      subst (IsLater o.console) (execute_rfwrite-console value_ptr o o' s s' h)
        (IsLater-refl o.console)
  call_handler-IsLater action value_ptr o o' s s' h =
      subst (λ (x : Outside). IsLater o.console x.console)
        (within-same o o' (handler unit float_text host network action value_ptr o.files s) s' h)
        (IsLater-refl o.console)

  call_handler-files :
      (action : VirtualAction) (value_ptr : Option ArgTuple) (o o' : Outside) (s s' : Machine)
      → action ≢ rfwrite
      → call_handler unit float_text host network action value_ptr o s ≡ some (s', o')
      → o.files ≡ o'.files
  unfolding call_handler
  call_handler-files int value_ptr o o' s s' other h = (execute_int-IsLater value_ptr o o' s s' h).1
  call_handler-files rfwrite value_ptr o o' s s' other h = absurd (other refl)
  call_handler-files action value_ptr o o' s s' other h =
      ap (λ (x : Outside). x.files)
        (within-same o o' (handler unit float_text host network action value_ptr o.files s) s' h)

  -- Whatever a process runs, and for however many rounds, what was written to the terminal stays
  -- written, what it writes comes behind, and it takes the texts that are typed in their order.
  pub execute-IsLater :
      (fuel : ℕ) (p p' : Process)
      → execute (execute_action unit float_text host network) fuel p ≡ some p'
      → IsLater p.outside.console p'.outside.console
  unfolding execute_action
  execute-IsLater =
      execute-closed (execute_action unit float_text host network)
        (λ p p'. IsLater p.outside.console p'.outside.console) (λ p. IsLater-refl p.outside.console)
        (λ p q r. IsLater-trans p.outside.console q.outside.console r.outside.console)
        (λ p p' h.
          let (a, s, o, found, ran, e) =
            execute_step-some (execute_action unit float_text host network) p p' h in
          subst (λ (x : Process). IsLater p.outside.console x.outside.console) e
            (call_handler-IsLater a.act a.value_ptr p.outside o p.machine s ran))
        (λ p. IsLater-refl p.outside.console)

  -- A program without an action that writes a file leaves every file as it is, for however many rounds
  -- it runs.
  pub execute-files :
      (fuel : ℕ) (p p' : Process)
      → WritesNone p.actions
      → execute (execute_action unit float_text host network) fuel p ≡ some p'
      → p.outside.files ≡ p'.outside.files
  unfolding execute_action
  execute-files fuel p p' none_writes h =
      (execute-closed (execute_action unit float_text host network) KeepsFiles
          (λ p. (refl, λ _. refl))
          (λ p q r (same, keeps) (same', keeps').
            (same ∙ same', λ ws. keeps ws ∙ keeps' (subst WritesNone same ws)))
          (λ p p' h.
            let (a, s, o, found, ran, e) =
              execute_step-some (execute_action unit float_text host network) p p' h in
            subst (KeepsFiles p) e (
              refl,
              λ ws.
                  call_handler-files a.act a.value_ptr p.outside o p.machine s
                    (All-get_elem? (λ (a : Action). a.act ≢ rfwrite) p.actions
                      p.machine.regs.program_counter a ws found)
                    ran,
            ))
          (λ p. (refl, λ _. refl)) fuel p p' h).1
        none_writes
