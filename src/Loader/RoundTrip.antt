-- ===== src/Loader/RoundTrip.antt =====
-- Loading what the assembler compiled: the actions and the memory of their arguments.
use virtual_processing_unit.Prelude.{
  ℕ, ◌<◌, ◌≤◌, ◌≡◌, refl, ap, ◌∙◌, sym, true, false, Option, none, some, ◌>>=◌, List, [], ◌∷◌, ◌++◌,
  if◌then◌else◌, length, arith, Bool-cases, inl, inr, ==_iff, ◌⊎◌,
}
use virtual_processing_unit.Bytes.{ulltoa, compba, word_size}
use virtual_processing_unit.Bytes.Words.{ulltoa-IsWord}
use virtual_processing_unit.Registers.{is_num_reg, is_fp_reg, cr_id}
use virtual_processing_unit.Memory.{Memory}
use virtual_processing_unit.Floats.{long_double_size}
use virtual_processing_unit.VirtualActions.{
  VirtualAction, set, opcode, action_of_opcode, contains, opt_arg_ops,
}
use virtual_processing_unit.VirtualActions.Opcodes.{
  ArgKind, constant_argument, no_argument, word_argument, register_argument, arg_kind,
  action_of_opcode-opcode, arg_kind_lem,
}
use virtual_processing_unit.Text.{Text}
use virtual_processing_unit.Svasm.{
  TokenType, double_n, ◌is◌, argv_error, exception, ok, exits, from_option, SvasmAction,
}
use virtual_processing_unit.Svasm.Compile.{compile_constant, compile_argument}
use virtual_processing_unit.Svasm.Meaning.{
  constant_meaning, compile_char_lem, compile_number_lem, compile_register_lem, meaning,
}
use virtual_processing_unit.Loader.{Action, keep, decode_set, decode_opt, decode_action}
use virtual_processing_unit.Loader.Words.{next_bytes-append, decode_word-compba}

pub action_of_constant : (a : VirtualAction) → arg_kind a ≡ constant_argument → a ≡ set
action_of_constant a e =
    let (c, n, w, r) = arg_kind_lem a in
    let same : opcode a ≡ opcode set = (==_iff (opcode a) (opcode set)).0 (rw e at c) in
    let found : some a ≡ some set =
      sym (action_of_opcode-opcode a) ∙ ap action_of_opcode same ∙ action_of_opcode-opcode set in
    cc

-- A `set` names a register for its constant.
unfoldable pub HasTarget : SvasmAction → Type 0
HasTarget a =
    arg_kind a.action ≡ constant_argument
    → (is_num_reg a.opt_arg ≡ true) ⊎ ((is_fp_reg a.opt_arg ≡ true) ⊎ (a.opt_arg ≡ cr_id))

-- An argument is at least a byte and at most a `long double`.
abbrev pub IsSized : Option (List ℕ) → Type 0
IsSized none = Unit
IsSized (some v) = (0 < length v) × (length v ≤ long_double_size)

-- What the optional byte of an action is when it is loaded.
pub loaded_opt : SvasmAction → ℕ
loaded_opt a = if contains opt_arg_ops (opcode a.action) then a.opt_arg else 0

module _ (stold_bytes : Text → Option (List ℕ)) (fresh : ℕ → ℕ) where
  -- What the loader makes of an action with this argument, with the rest of the file.
  abbrev pub loaded :
      SvasmAction → Option (List ℕ) → List ℕ → Memory → Option (Option Action × List ℕ × Memory)
  loaded a none rest m = some (some (record { act = a.action; value_ptr = none }), rest, m)
  loaded a (some v) rest m = do
    (action, rest', m') ← keep fresh a.action (loaded_opt a) v rest m
    some (some action, rest', m')

  not_num : (r : ℕ) → is_fp_reg r ≡ true → is_num_reg r ≡ false
  unfolding is_fp_reg is_num_reg
  not_num r h = ground arith

  double_bytes :
      (t : TokenType) (raw : Text) (argument : List ℕ)
      → (if t is double_n then from_option exception (stold_bytes raw) else exits argv_error)
        ≡ ok argument
      → ((t is double_n) ≡ true) × (stold_bytes raw ≡ some argument)
  double_bytes t raw argument h = ground arith

  -- Behind the opcode of `a`, the loader reads `argument` as `c`.
  unfoldable pub Reads : SvasmAction → List ℕ → Option (List ℕ) → Type 0
  Reads a argument c =
      (rest : List ℕ) (m : Memory)
      → decode_action fresh (opcode a.action)
          ((if contains opt_arg_ops (opcode a.action) then a.opt_arg ∷ [] else [])
            ++ (argument ++ rest))
          m
        ≡ loaded a c rest m

  decode_opt-loaded :
      (a : SvasmAction) (data' : List ℕ)
      → decode_opt fresh
          (opcode a.action)
          ((if contains opt_arg_ops (opcode a.action) then a.opt_arg ∷ [] else []) ++ data')
        ≡ some (loaded_opt a, data')
  unfolding decode_opt loaded_opt
  decode_opt-loaded a data' = elim (Bool-cases (contains opt_arg_ops (opcode a.action))) [
    | inl t ↦ rw t
    | inr f ↦ rw f
  ]

  Reads-none : (a : SvasmAction) → arg_kind a.action ≡ no_argument → Reads a [] none
  unfolding decode_action Reads
  Reads-none a e rest m =
      let (c, n, w, r) = arg_kind_lem a.action in
      rw (decode_opt-loaded a, c, n, e, action_of_opcode-opcode a.action) refl

  Reads-word :
      (a : SvasmAction) (v : List ℕ)
      → arg_kind a.action ≡ word_argument
      → length v ≡ word_size
      → Reads a (compba v) (some v)
  unfolding decode_action Reads
  Reads-word a v e size rest m =
      let (c, n, w, r) = arg_kind_lem a.action in
      rw
        (
          decode_opt-loaded a,
          c,
          n,
          w,
          e,
          action_of_opcode-opcode a.action,
          decode_word-compba v rest size,
        )
        refl

  Reads-register :
      (a : SvasmAction) (i : ℕ)
      → arg_kind a.action ≡ register_argument
      → Reads a (i ∷ []) (some (ulltoa i))
  unfolding decode_action Reads
  Reads-register a i e rest m =
      let (c, n, w, r) = arg_kind_lem a.action in
      rw (decode_opt-loaded a, c, n, w, r, e, action_of_opcode-opcode a.action) refl

  -- `argument` is what an action compiles to, and the loader reads it as the action's meaning.
  unfoldable pub Decodes : SvasmAction → List ℕ → Type 0
  Decodes a argument =
      (c : Option (List ℕ)) × (meaning stold_bytes a ≡ ok c) × IsSized c × Reads a argument c

  Decodes-none :
      (a : SvasmAction) (argument : List ℕ)
      → arg_kind a.action ≡ no_argument
      → compile_argument stold_bytes a ≡ ok argument
      → Decodes a argument
  unfolding compile_argument Decodes meaning
  Decodes-none a argument e h =
      let (c, n, w, r) = arg_kind_lem a.action in
      let empty : List ℕ = [] in
      let h' : ok empty ≡ ok argument = rw (c, n, e) at h in
      let nil : [] ≡ argument = cc in (none, rw e, tt, rw (← nil) (Reads-none a e))

  Decodes-word :
      (a : SvasmAction) (argument : List ℕ)
      → arg_kind a.action ≡ word_argument
      → compile_argument stold_bytes a ≡ ok argument
      → Decodes a argument
  unfolding compile_argument Decodes meaning
  Decodes-word a argument e h =
      let (c, n, w, r) = arg_kind_lem a.action in
      let (v, mean, shape, size) =
        compile_number_lem a.var_type a.var_raw argument (rw (c, n, w, e) at h) in
      (
        some v,
        rw (e, mean),
        (omega (arith, size), omega (arith, size)),
        rw shape (Reads-word a v e size),
      )

  Decodes-register :
      (a : SvasmAction) (argument : List ℕ)
      → arg_kind a.action ≡ register_argument
      → compile_argument stold_bytes a ≡ ok argument
      → Decodes a argument
  unfolding compile_argument Decodes meaning
  Decodes-register a argument e h =
      let (c, n, w, r) = arg_kind_lem a.action in
      let (i, mean, shape) =
        compile_register_lem a.var_type a.var_raw argument (rw (c, n, w, r, e) at h) in
      (
        some (ulltoa i),
        rw (e, mean),
        (omega (arith, (ulltoa-IsWord i).0), omega (arith, (ulltoa-IsWord i).0)),
        rw shape (Reads-register a i e),
      )

  Reads-set :
      (a : SvasmAction) (argument v : List ℕ)
      → a.action ≡ set
      → ((rest : List ℕ) (m : Memory)
          → decode_set fresh a.opt_arg (argument ++ rest) m ≡ keep fresh set a.opt_arg v rest m)
      → Reads a argument (some v)
  unfolding decode_action Reads loaded_opt opt_arg_ops decode_opt
  Reads-set a argument v e decode rest m = rw (e, decode rest m) refl

  Decodes-set_num :
      (a : SvasmAction) (argument : List ℕ)
      → a.action ≡ set
      → is_num_reg a.opt_arg ≡ true
      → compile_constant stold_bytes a.opt_arg a.var_type a.var_raw ≡ ok argument
      → Decodes a argument
  unfolding compile_constant constant_meaning Decodes meaning arg_kind decode_set
  Decodes-set_num a argument e target h =
      let (v, mean, shape, size) =
        compile_number_lem a.var_type a.var_raw argument (rw target at h) in
      (
        some v,
        rw (e, target, mean),
        (omega (arith, size), omega (arith, size)),
        Reads-set a argument v e
            (λ rest m. rw (target, shape, decode_word-compba v rest size) refl),
      )

  Decodes-set_fp :
      (size : (raw : Text) (bs : List ℕ) → stold_bytes raw ≡ some bs → length bs ≡ long_double_size)
      → (a : SvasmAction) (argument : List ℕ) → a.action ≡ set
      → is_fp_reg a.opt_arg ≡ true
      → compile_constant stold_bytes a.opt_arg a.var_type a.var_raw ≡ ok argument
      → Decodes a argument
  unfolding compile_constant constant_meaning Decodes meaning arg_kind decode_set
  Decodes-set_fp size a argument e target h =
      let num = not_num a.opt_arg target in
      let (double, found) = double_bytes a.var_type a.var_raw argument (rw (num, target) at h) in
      (
        some argument,
        rw (e, num, target, double, found),
        (
          omega (arith, size a.var_raw argument found),
          omega (arith, size a.var_raw argument found),
        ),
        Reads-set a argument argument e (λ rest m.
            rw (num, target, ← size a.var_raw argument found, next_bytes-append argument rest)
              refl),
      )

  Decodes-set_cr :
      (a : SvasmAction) (argument : List ℕ)
      → a.action ≡ set
      → a.opt_arg ≡ cr_id
      → compile_constant stold_bytes a.opt_arg a.var_type a.var_raw ≡ ok argument
      → Decodes a argument
  unfolding compile_constant constant_meaning Decodes meaning arg_kind decode_set is_num_reg
      is_fp_reg
  Decodes-set_cr a argument e target h =
      let char = rw target at h in
      let (c, shape) = compile_char_lem a.var_type a.var_raw argument char in
      (
        some argument,
        rw (e, target, char),
        (omega (arith, ap length shape), omega (arith, ap length shape)),
        Reads-set a argument argument e (λ rest m. rw (target, shape) refl),
      )

  Decodes-of_kind :
      (size : (raw : Text) (bs : List ℕ) → stold_bytes raw ≡ some bs → length bs ≡ long_double_size)
      → (k : ArgKind) (a : SvasmAction) (argument : List ℕ) → arg_kind a.action ≡ k
      → HasTarget a
      → compile_argument stold_bytes a ≡ ok argument
      → Decodes a argument
  unfolding compile_argument HasTarget opcode
  Decodes-of_kind size no_argument a argument e target h = Decodes-none a argument e h
  Decodes-of_kind size word_argument a argument e target h = Decodes-word a argument e h
  Decodes-of_kind size register_argument a argument e target h = Decodes-register a argument e h
  Decodes-of_kind size constant_argument a argument e target h =
      let is_set = action_of_constant a.action e in
      let h' : compile_constant stold_bytes a.opt_arg a.var_type a.var_raw ≡ ok argument =
        rw is_set at h in
      elim (target e) [
        | inl num ↦ Decodes-set_num a argument is_set num h'
        | inr (inl float) ↦ Decodes-set_fp size a argument is_set float h'
        | inr (inr char) ↦ Decodes-set_cr a argument is_set char h'
      ]

  -- What an action compiles to, behind its opcode and its optional byte, the loader reads as the
  -- action with its meaning.
  pub argument-Decodes :
      (size : (raw : Text) (bs : List ℕ) → stold_bytes raw ≡ some bs → length bs ≡ long_double_size)
      → (a : SvasmAction) (argument : List ℕ) → HasTarget a
      → compile_argument stold_bytes a ≡ ok argument
      → Decodes a argument
  argument-Decodes size a argument target h =
      Decodes-of_kind size (arg_kind a.action) a argument refl target h
