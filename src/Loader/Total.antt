-- ===== src/Loader/Total.antt =====
-- VirtualExecutableRunner/runner_main.cpp: loading a compiled program, without a condition on its actions.
use virtual_processing_unit.Prelude.{
  ℕ, ◌+◌, ◌*◌, ◌≤◌, ◌<◌, ◌^◌, ◌≡◌, refl, ap₂, ◌∙◌, arith, Option, none, some, List, [], ◌∷◌, map,
  length, All,
}
use virtual_processing_unit.Memory.{Memory}
use virtual_processing_unit.Memory.Stack.{alloc}
use virtual_processing_unit.Memory.Sdz.{IsZone, sdzs-IsZone}
use virtual_processing_unit.Floats.{long_double_size}
use virtual_processing_unit.Text.{Text}
use virtual_processing_unit.Svasm.{ok, SvasmAction}
use virtual_processing_unit.Svasm.Compile.{compile_each}
use virtual_processing_unit.Svasm.Meaning.{meaning}
use virtual_processing_unit.Loader.{Action, keep}
use virtual_processing_unit.Loader.RoundTrip.{HasTarget, IsSized, loaded, loaded_opt}
use virtual_processing_unit.Loader.Program.{
  load_all, load_all-ok, compile_each-shape, decode_from-inst,
}

module _ (stold_bytes : Text → Option (List ℕ)) (fresh : ℕ → ℕ) where
  -- An action with an argument of its size is placed, and the zone grows by at most a page.
  loaded-IsZone :
      (a : SvasmAction) (c : Option (List ℕ)) (m : Memory)
      → IsSized c
      → IsZone m
      → alloc m + 0x1000 < 2 ^ 62
      → (action : Action) × (m' : Memory) × (loaded stold_bytes fresh a c [] m
          ≡ some (some action, [], m'))
        × (action.act ≡ a.action)
        × (m'.memlen ≡ m.memlen)
        × IsZone m'
        × (alloc m' ≤ alloc m + 0x1000)
  unfolding keep
  loaded-IsZone a none m sized zone room =
      (record { act = a.action; value_ptr = none }, m, refl, refl, refl, zone, omega arith)
  loaded-IsZone a (some v) m (pos, small) zone room =
      let (m', e, top, top_in, len, grown, new, old) =
        sdzs-IsZone fresh v m zone pos (omega arith) in
      (
        record {
          act = a.action;
          value_ptr = some (record { vaddr = m.sdztop; vsize = length v; vopt = loaded_opt a });
        },
        m',
        rw e refl,
        refl,
        len,
        record { top_in = top_in; small = omega arith },
        omega arith,
      )

  load_all-step :
      (a : SvasmAction) (rest : List SvasmAction) (c : Option (List ℕ)) (m m' m'' : Memory)
      (action : Action) (actions : List Action)
      → meaning stold_bytes a ≡ ok c
      → loaded stold_bytes fresh a c [] m ≡ some (some action, [], m')
      → load_all stold_bytes fresh rest m' ≡ some (actions, m'')
      → load_all stold_bytes fresh (a ∷ rest) m ≡ some (action ∷ actions, m'')
  load_all-step a rest c m m' m'' action actions mean placed others =
      load_all-ok stold_bytes fresh a rest c m mean ∙ rw (placed, others) refl

  -- Every program that compiles is loaded, with its actions in their order.
  pub load_all-IsZone :
      (size : (raw : Text) (bs : List ℕ) → stold_bytes raw ≡ some bs → length bs ≡ long_double_size)
      → (actions : List SvasmAction) (code : List ℕ) (m : Memory) → All HasTarget actions
      → compile_each stold_bytes actions ≡ ok code
      → IsZone m
      → alloc m + 0x1000 * length actions < 2 ^ 62
      → (result : List Action) × (m' : Memory) × (load_all stold_bytes fresh actions m
          ≡ some (result, m'))
        × (map (λ a. a.act) result ≡ map (λ a. a.action) actions)
        × (m'.memlen ≡ m.memlen)
  unfolding load_all
  load_all-IsZone size [] code m targets h zone room = ([], m, refl, refl, refl)
  load_all-IsZone size (a ∷ rest) code m (target, targets) h zone room =
      let (bytes, others, inst, each, e) = compile_each-shape stold_bytes fresh a rest code h in
      let (c, mean, sized, step) =
        decode_from-inst stold_bytes fresh size a bytes others 0 m target inst in
      let (action, m', placed, act, len, zone', near) =
        loaded-IsZone a c m sized zone (omega arith) in
      let (result, m'', loads, same, len') =
        load_all-IsZone size rest others m' targets each zone' (omega arith) in
      (
        action ∷ result,
        m'',
        load_all-step a rest c m m' m'' action result mean placed loads,
        ap₂ ◌∷◌ act same,
        len' ∙ len,
      )
