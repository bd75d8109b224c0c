-- ===== src/ProcessSymbols/Calls.antt =====
-- Actions/process_symbols.cpp: calls that save their address on the calling tree, and returns.
use virtual_processing_unit.Prelude.{ℕ, ◌≡◌, refl, some, List, ◌∷◌}
use virtual_processing_unit.Memory.{Machine}
use virtual_processing_unit.Args.{ArgTuple, Host, arg_to_ull}
use virtual_processing_unit.NativeMaths.{with_regs}
use virtual_processing_unit.ProcessSymbols.{p_call, p_ret, p_svcall, p_rscall}

restore_cons :
    (last : ℕ) (rest : List ℕ) (s : Machine)
    → s.calling_tree ≡ last ∷ rest
    → ((p_rscall s).regs.process_call_address ≡ last) × ((p_rscall s).calling_tree ≡ rest)
unfolding p_rscall
restore_cons last rest s e = rw e (refl, refl)

-- `rscall` takes back the address that `svcall` saved, whatever the procedure in between did to the
-- registers, if it left the calling tree as it found it.
restore-svcall :
    (s : Machine) (body : Machine → Machine)
    → ((t : Machine) → (body t).calling_tree ≡ t.calling_tree)
    → ((p_rscall (body (p_svcall s))).regs.process_call_address ≡ s.regs.process_call_address)
      × ((p_rscall (body (p_svcall s))).calling_tree ≡ s.calling_tree)
unfolding p_svcall p_rscall
restore-svcall s body keeps =
    let saved =
      restore_cons (s.regs.process_call_address) s.calling_tree (body (p_svcall s))
        (keeps (p_svcall s)) in
    saved

-- A procedure that saves its call address, does something that keeps the calling tree as it found
-- it, restores the address and returns, returns behind its call.
pub p_ret-p_rscall :
    (host : Host) (arg : ArgTuple) (s : Machine) (target : ℕ) (body : Machine → Machine)
    → arg_to_ull host arg s.mem ≡ some target
    → ((t : Machine) → (body t).calling_tree ≡ t.calling_tree)
    → (entered : Machine) × (p_call host arg s ≡ some entered)
      × (entered.regs.program_counter ≡ target)
      × ((p_ret (p_rscall (body (p_svcall entered)))).regs.program_counter ≡ s.regs.program_counter)
      × ((p_rscall (body (p_svcall entered))).calling_tree ≡ s.calling_tree)
unfolding p_call p_ret p_svcall p_rscall
p_ret-p_rscall host arg s target body found keeps =
    let entered =
      with_regs s (record s.regs {
        process_call_address = s.regs.program_counter;
        program_counter = target;
      }) in
    let (address, tree) = restore-svcall entered body keeps in
    (entered, rw found refl, refl, address, tree)
