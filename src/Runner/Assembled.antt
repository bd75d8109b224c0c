-- ===== src/Runner/Assembled.antt =====
-- The executable files of SVASM/Assembler in `runFile` of VirtualExecutableRunner/runner_main.cpp.
use virtual_processing_unit.Prelude.{
  ℕ, ◌+◌, ◌*◌, ◌<◌, ◌^◌, ◌≡◌, refl, ◌∙◌, arith, Option, some, List, length, map,
}
use virtual_processing_unit.Registers.{Storage, Letter}
use virtual_processing_unit.Memory.{Memory, Machine, init, mrsz}
use virtual_processing_unit.Memory.Sdz.{IsZone}
use virtual_processing_unit.Memory.Stack.{alloc}
use virtual_processing_unit.Args.{ArgTuple, Host}
use virtual_processing_unit.Floats.{FloatUnit, long_double_size}
use virtual_processing_unit.VirtualActions.{VirtualAction}
use virtual_processing_unit.Text.{Text}
use virtual_processing_unit.Extended.{FloatText}
use virtual_processing_unit.Svasm.{ok, SvasmAction}
use virtual_processing_unit.Svasm.Compile.{compile_all}
use virtual_processing_unit.Loader.{Action, decode_byte_array, decode_file}
use virtual_processing_unit.Loader.Program.{load_all}
use virtual_processing_unit.Loader.Executable.{link}
use virtual_processing_unit.Assembler.{front_end, assemble}
use virtual_processing_unit.Assembler.Load.{assemble-decode}
use virtual_processing_unit.Engine.{Outside, Process, process, execute}
use virtual_processing_unit.ActionsEngine.{execute_action}
use virtual_processing_unit.Runner.{new_machine, execute_file, run_file}

init-IsZone : IsZone init
unfolding init
init-IsZone = omega arith

init_size : alloc init ≡ 0x101000
unfolding init
init_size = refl

init_length : init.memlen ≡ 0x100000
unfolding init
init_length = refl

-- A request for the memory that there is changes nothing.
mrsz-same : (m : Memory) (n : ℕ) → m.memlen ≡ n → mrsz n m ≡ some m
unfolding mrsz
mrsz-same m n e = ground arith

module _ (unit : FloatUnit) (float_text : FloatText) (host : Host)
    (network : VirtualAction → ArgTuple → Machine → Option Machine) (held : Letter → Storage) where
  -- The process that an executable file is run as, with these actions and this memory.
  abbrev run_process : ℕ → Outside → List Action → Memory → Option Process
  run_process fuel o actions m =
      execute (execute_action unit float_text host network) fuel
        (process (new_machine held m) o actions)

  run_file-loaded :
      (fuel : ℕ) (o : Outside) (exe_bytes code : List ℕ) (req_mem : ℕ) (loaded : List Action)
      (m : Memory)
      → decode_file exe_bytes ≡ some (req_mem, code)
      → decode_byte_array host.fresh code init ≡ some (loaded, m)
      → m.memlen ≡ req_mem
      → run_file unit float_text host network held fuel o exe_bytes ≡ run_process fuel o loaded m
  unfolding run_file execute_file process
  run_file-loaded fuel o exe_bytes code req_mem loaded m read decoded same =
      rw (read, decoded, mrsz-same m req_mem same) refl

  -- Whatever source file the stages of the assembler accept, the runner runs what they write as a
  -- process of the preprocessor's actions, in their order and each with its argument, on a new
  -- machine: what the process has come to after any number of rounds is the same, and so is whether
  -- it has met undefined behaviour.
  pub run_file-assemble :
      (stold_bytes : Text → Option (List ℕ))
      (size : (raw : Text) (bs : List ℕ) → stold_bytes raw ≡ some bs → length bs ≡ long_double_size)
      (file : Option Text) (actions : List SvasmAction) (new_mem_size : Option ℕ)
      (out_bytes : List ℕ) (fuel : ℕ) (o : Outside)
      → length out_bytes < 2 ^ 64
      → length actions < 2 ^ 48
      → front_end file ≡ ok (actions, new_mem_size)
      → compile_all stold_bytes new_mem_size actions ≡ ok out_bytes
      → (loaded : List Action) × (m : Memory) × (assemble stold_bytes file ≡ ok (link out_bytes))
        × (load_all stold_bytes host.fresh actions init ≡ some (loaded, m))
        × (map (λ a. a.act) loaded ≡ map (λ a. a.action) actions)
        × (run_file unit float_text host network held fuel o (link out_bytes)
            ≡ execute
                (execute_action unit float_text host network)
                fuel
                (process (new_machine held m) o loaded))
  run_file-assemble stold_bytes size file actions new_mem_size out_bytes fuel o fits small front
        compiled =
      let room : alloc init + 0x1000 * length actions < 2 ^ 62 = omega (arith, small, init_size) in
      let (code, loaded, m, assembled, read, decoded, same, acts, len) =
        assemble-decode stold_bytes host.fresh size file actions new_mem_size out_bytes init fits
          init-IsZone room front compiled in
      (
        loaded,
        m,
        assembled,
        same,
        acts,
        run_file-loaded fuel o (link out_bytes) code 0x100000 loaded m read decoded
            (len ∙ init_length),
      )
