-- ===== src/Loader/Program.antt =====
-- Whole programs: `compileAll` of SVASM/Assembler/compiler.cpp against `decodeByteArray` of
-- VirtualExecutableRunner/runner_main.cpp.
use virtual_processing_unit.Prelude.{
  ℕ, zero, suc, ◌≤◌, ◌<◌, ◌≡◌, refl, ap, ◌∙◌, sym, Option, none, some, ◌>>=◌, List, [], ◌∷◌, ◌++◌,
  if◌then◌else◌, length, length-append, All, arith, append_assoc, fun_ext, Option-cases, inl, inr,
}
use virtual_processing_unit.Memory.{Memory, sdzs}
use virtual_processing_unit.Floats.{long_double_size}
use virtual_processing_unit.VirtualActions.{opcode, contains, opt_arg_ops}
use virtual_processing_unit.Text.{Text}
use virtual_processing_unit.Svasm.{ok, exits, bind-ok, ok-injective, SvasmAction}
use virtual_processing_unit.Svasm.Compile.{compile_argument, compile_inst, compile_each}
use virtual_processing_unit.Svasm.Meaning.{meaning}
use virtual_processing_unit.Loader.{
  Action, keep, decode_action, decode_from, decode_byte_array, add_action,
}
use virtual_processing_unit.Loader.RoundTrip.{
  HasTarget, IsSized, loaded, Reads, Decodes, argument-Decodes,
}

module _ (stold_bytes : Text → Option (List ℕ)) (fresh : ℕ → ℕ) where
  -- What a process should get from these actions: each with its meaning in the static data zone.
  unfoldable pub load_all : List SvasmAction → Memory → Option (List Action × Memory)
  load_all [] m = some ([], m)
  load_all (a ∷ rest) m = elim (meaning stold_bytes a) [
    | exits e ↦ none
    | ok c ↦ do
      (action, _, m') ← loaded stold_bytes fresh a c [] m
      (actions, m'') ← load_all rest m'
      some (add_action action actions, m'')
  ]

  pub load_all-ok :
      (a : SvasmAction) (rest : List SvasmAction) (c : Option (List ℕ)) (m : Memory)
      → meaning stold_bytes a ≡ ok c
      → load_all (a ∷ rest) m ≡ (
          loaded stold_bytes fresh a c [] m >>= λ (action, _, m'). do
            (actions, m'') ← load_all rest m'
            some (add_action action actions, m''))
  unfolding load_all
  load_all-ok a rest c m mean = rw (load_all, mean) refl

  -- Placing an action does not depend on what follows it in the file.
  loaded_rest :
      {B : Type 0} (a : SvasmAction) (c : Option (List ℕ)) (rest : List ℕ) (m : Memory)
      (f : Option Action → List ℕ → Memory → Option B)
      → (loaded stold_bytes fresh a c rest m >>= λ (x, y, z). f x y z)
        ≡ (loaded stold_bytes fresh a c [] m >>= λ (x, y, z). f x rest z)
  unfolding keep
  loaded_rest a none rest m f = refl
  loaded_rest a (some v) rest m f = elim (Option-cases (sdzs fresh v m)) [
    | inl e ↦ rw e refl
    | inr (m', e) ↦ rw e refl
  ]

  decode_from-action :
      (a : SvasmAction) (argument rest : List ℕ) (fuel : ℕ) (m : Memory) (c : Option (List ℕ))
      → Reads stold_bytes fresh a argument c
      → decode_from fresh
          (suc fuel)
          (opcode a.action ∷ (if contains opt_arg_ops (opcode a.action) then a.opt_arg ∷ [] else [])
            ++ argument
            ++ rest)
          m
        ≡ (loaded stold_bytes fresh a c [] m >>= λ (action, _, m'). do
          (actions, m'') ← decode_from fresh fuel rest m'
          some (add_action action actions, m''))
  unfolding decode_from Reads
  decode_from-action a argument rest fuel m c reads =
      ap
        (λ t. decode_action fresh (opcode a.action) t m >>= λ (action, rest', m'). do
          (actions, m'') ← decode_from fresh fuel rest' m'
          some (add_action action actions, m''))
        (append_assoc (if contains opt_arg_ops (opcode a.action) then a.opt_arg ∷ [] else [])
          argument rest)
      ∙ rw (reads rest m) (
          loaded_rest a c rest m (λ action rest' m'. do
            (actions, m'') ← decode_from fresh fuel rest' m'
            some (add_action action actions, m'')))

  -- A compiled action is its opcode, its optional byte and an argument that compiles.
  compile_inst-shape :
      (a : SvasmAction) (bytes : List ℕ)
      → compile_inst stold_bytes a ≡ ok bytes
      → (argument : List ℕ) × (compile_argument stold_bytes a ≡ ok argument)
        × (bytes
            ≡ opcode a.action
              ∷ ((if contains opt_arg_ops (opcode a.action) then a.opt_arg ∷ [] else [])
                  ++ argument))
  unfolding compile_inst
  compile_inst-shape a bytes h =
      let (argument, compiled, e) = bind-ok (compile_argument stold_bytes a) _ bytes h in
      (argument, compiled, sym (ok-injective _ bytes e))

  pub compile_each-shape :
      (a : SvasmAction) (rest : List SvasmAction) (code : List ℕ)
      → compile_each stold_bytes (a ∷ rest) ≡ ok code
      → (bytes others : List ℕ) × (compile_inst stold_bytes a ≡ ok bytes)
        × (compile_each stold_bytes rest ≡ ok others)
        × (code ≡ bytes ++ others)
  unfolding compile_each
  compile_each-shape a rest code h =
      let (bytes, inst, h') = bind-ok (compile_inst stold_bytes a) _ code h in
      let (others, each, e) = bind-ok (compile_each stold_bytes rest) _ code h' in
      (bytes, others, inst, each, sym (ok-injective _ code e))

  pub decode_from-inst :
      (size : (raw : Text) (bs : List ℕ) → stold_bytes raw ≡ some bs → length bs ≡ long_double_size)
      → (a : SvasmAction) (bytes others : List ℕ) (fuel : ℕ) (m : Memory) → HasTarget a
      → compile_inst stold_bytes a ≡ ok bytes
      → (c : Option (List ℕ)) × (meaning stold_bytes a ≡ ok c)
        × IsSized c
        × (decode_from fresh (suc fuel) (bytes ++ others) m ≡ (
            loaded stold_bytes fresh a c [] m >>= λ (action, _, m'). do
              (actions, m'') ← decode_from fresh fuel others m'
              some (add_action action actions, m'')))
  unfolding Decodes
  decode_from-inst size a bytes others fuel m target inst =
      let (argument, compiled, shape) = compile_inst-shape a bytes inst in
      let (c, mean, sized, reads) =
        argument-Decodes stold_bytes fresh size a argument target compiled in
      (c, mean, sized, rw shape (decode_from-action a argument others fuel m c reads))

  inst-length :
      (a : SvasmAction) (bytes others : List ℕ) (fuel : ℕ)
      → compile_inst stold_bytes a ≡ ok bytes
      → length (bytes ++ others) ≤ suc fuel
      → length others ≤ fuel
  inst-length a bytes others fuel inst enough =
      let (argument, compiled, shape) = compile_inst-shape a bytes inst in
      let pos : 0 < length bytes = rw shape (omega arith) in
      omega (arith, length-append bytes others)

  no_fuel :
      (a : SvasmAction) (bytes others : List ℕ)
      → compile_inst stold_bytes a ≡ ok bytes
      → ¬ length (bytes ++ others) ≤ 0
  no_fuel a bytes others inst none_left =
      let (argument, compiled, shape) = compile_inst-shape a bytes inst in
      let pos : 0 < length bytes = rw shape (omega arith) in
      omega (arith, length-append bytes others)

  -- The loop finds the actions of a compiled program, each with its meaning.
  decode_from-compile_each :
      (size : (raw : Text) (bs : List ℕ) → stold_bytes raw ≡ some bs → length bs ≡ long_double_size)
      → (actions : List SvasmAction) (code : List ℕ) (fuel : ℕ) (m : Memory) → All HasTarget actions
      → compile_each stold_bytes actions ≡ ok code
      → length code ≤ fuel
      → decode_from fresh fuel code m ≡ load_all actions m
  unfolding load_all compile_each decode_from
  decode_from-compile_each size [] code fuel m targets h enough = rw (← ok-injective [] code h) refl
  decode_from-compile_each size (a ∷ rest) code zero m targets h enough =
      let (bytes, others, inst, each, e) = compile_each-shape a rest code h in
      absurd (no_fuel a bytes others inst (rw e at enough))
  decode_from-compile_each size (a ∷ rest) code (suc fuel) m (target, targets) h enough =
      let (bytes, others, inst, each, e) = compile_each-shape a rest code h in
      let (c, mean, sized, step) = decode_from-inst size a bytes others fuel m target inst in
      let left = inst-length a bytes others fuel inst (rw e at enough) in
      rw e (
        step
        ∙ ap
            (λ (g : Memory → Option (List Action × Memory)).
              loaded stold_bytes fresh a c [] m >>= λ (action, _, m'). do
                (actions, m'') ← g m'
                some (add_action action actions, m''))
            (fun_ext (λ m'. decode_from-compile_each size rest others fuel m' targets each left))
        ∙ sym (load_all-ok a rest c m mean))

  -- Decoding what actions compile to gives the actions back, each with its meaning in the static
  -- data zone.
  pub decode_byte_array-compile_each :
      (size : (raw : Text) (bs : List ℕ) → stold_bytes raw ≡ some bs → length bs ≡ long_double_size)
      → (actions : List SvasmAction) (code : List ℕ) (m : Memory) → All HasTarget actions
      → compile_each stold_bytes actions ≡ ok code
      → decode_byte_array fresh code m ≡ load_all actions m
  unfolding decode_byte_array
  decode_byte_array-compile_each size actions code m targets h =
      decode_from-compile_each size actions code (length code) m targets h (omega arith)
