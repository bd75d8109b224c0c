-- ===== src/Svasm/Preprocessor/Emits.antt =====
-- SVASM/Assembler/compiler.cpp: the functions that turn an instruction into actions, in safe and in
-- unsafe code, side by side.
pub mod Maths
pub mod Memory
pub mod Control
pub mod Instructions
use virtual_processing_unit.Prelude.{
  ℕ, ◌≡◌, ◌⊎◌, inl, inr, refl, ap, subst, sym, arith, Bool, true, false, not, ◌&&◌, ◌||◌, Option,
  none, some, List, [], ◌∷◌, ◌++◌, ◌==◌, if◌then◌else◌, All, and-true, not-true, Bool-cases,
}
use virtual_processing_unit.Registers.{is_num_reg, is_fp_reg, cr_id}
use virtual_processing_unit.VirtualActions.{VirtualAction}
use virtual_processing_unit.VirtualActions.Opcodes.{
  ArgKind, constant_argument, no_argument, word_argument, register_argument, arg_kind,
}
use virtual_processing_unit.Text.{Text, text_eq, eq_of_text_eq, member, lookup}
use virtual_processing_unit.Svasm.{
  TokenType, error_type, unsigned_n, signed_n, hex_n, double_n, str, reg, fp_reg, stored_addr_reg,
  stored_addr_raw, label, safety_directive, memory_directive, type_quantifier, ◌is◌, type_code,
  Token, SvasError, wrong_nargs, argv_error, exception, Svas, ok, exits, ◌>>=◌, from_option,
  SvasmAction, strreg_to_reg,
}
use virtual_processing_unit.Svasm.Tokenizer.{registers, fp_regs}
use virtual_processing_unit.Svasm.Tokenizer.Types.{IsToken}
use virtual_processing_unit.Svasm.Preprocessor.Actions.{is_register, register_at, saved}

-- A register that a constant can be compiled for.
unfoldable pub is_target_id : ℕ → Bool
unfolding is_num_reg is_fp_reg
is_target_id id = is_num_reg id || (is_fp_reg id || id == cr_id)

abbrev pub target_of_kind : ArgKind → ℕ → Bool
target_of_kind constant_argument opt_arg = is_target_id opt_arg
target_of_kind no_argument opt_arg = true
target_of_kind word_argument opt_arg = true
target_of_kind register_argument opt_arg = true

-- The constants of `set` are for such registers.
abbrev pub all_have_target : List SvasmAction → Bool
all_have_target [] = true
all_have_target (a ∷ actions) =
    target_of_kind (arg_kind a.action) a.opt_arg && all_have_target actions

-- The first list is the second without some of its elements.
pub data IsPartOf : List SvasmAction → List SvasmAction → Type 0 where
  empty : IsPartOf [] []
  keep : (a : SvasmAction) (us ss : List SvasmAction) → IsPartOf us ss → IsPartOf (a ∷ us) (a ∷ ss)
  skip : (a : SvasmAction) (us ss : List SvasmAction) → IsPartOf us ss → IsPartOf us (a ∷ ss)

-- The errors of an instruction that is used wrongly.
abbrev pub IsUsageError : SvasError → Type 0
IsUsageError e = (e ≡ wrong_nargs) ⊎ (e ≡ argv_error)

-- The result in unsafe code and the result in safe code of the same instruction.
pub data Emits : Svas (List SvasmAction) → Svas (List SvasmAction) → Type 0 where
  emits :
      (us ss : List SvasmAction)
      → IsPartOf us ss
      → all_have_target ss ≡ true
      → Emits (ok us) (ok ss)
  refuses : (e : SvasError) → IsUsageError e → Emits (exits e) (exits e)

pub IsPartOf-refl : (actions : List SvasmAction) → IsPartOf actions actions
IsPartOf-refl [] = empty
IsPartOf-refl (a ∷ actions) = keep a actions actions (IsPartOf-refl actions)

IsPartOf-nil : (ts : List SvasmAction) → IsPartOf [] ts
IsPartOf-nil [] = empty
IsPartOf-nil (a ∷ ts) = skip a [] ts (IsPartOf-nil ts)

pub IsPartOf-before : (ts us ss : List SvasmAction) → IsPartOf us ss → IsPartOf us (ts ++ ss)
IsPartOf-before [] us ss h = h
IsPartOf-before (a ∷ ts) us ss h = skip a us (ts ++ ss) (IsPartOf-before ts us ss h)

IsPartOf-after :
    {us ss : List SvasmAction} (ts : List SvasmAction) → IsPartOf us ss → IsPartOf us (ss ++ ts)
IsPartOf-after ts empty = IsPartOf-nil ts
IsPartOf-after ts (keep a us ss h) = keep a us (ss ++ ts) (IsPartOf-after ts h)
IsPartOf-after ts (skip a us ss h) = skip a us (ss ++ ts) (IsPartOf-after ts h)

pub IsPartOf-append :
    {us ss : List SvasmAction} (vs ts : List SvasmAction)
    → IsPartOf us ss
    → IsPartOf vs ts
    → IsPartOf (us ++ vs) (ss ++ ts)
IsPartOf-append vs ts empty k = k
IsPartOf-append vs ts (keep a us ss h) k = keep a (us ++ vs) (ss ++ ts) (IsPartOf-append vs ts h k)
IsPartOf-append vs ts (skip a us ss h) k = skip a (us ++ vs) (ss ++ ts) (IsPartOf-append vs ts h k)

pub all_have_target-append :
    (us ts : List SvasmAction)
    → all_have_target us ≡ true
    → all_have_target ts ≡ true
    → all_have_target (us ++ ts) ≡ true
all_have_target-append [] ts h k = k
all_have_target-append (a ∷ us) ts h k =
    let (first, others) =
      and-true (target_of_kind (arg_kind a.action) a.opt_arg) (all_have_target us) h in
    rw first (all_have_target-append us ts others k)

-- The same actions in both.
pub Emits-ok :
    (actions : List SvasmAction) → all_have_target actions ≡ true → Emits (ok actions) (ok actions)
Emits-ok actions h = emits actions actions (IsPartOf-refl actions) h

-- Actions that safe code puts others around.
pub Emits-saved :
    (save body restore : List SvasmAction)
    → all_have_target save ≡ true
    → all_have_target body ≡ true
    → all_have_target restore ≡ true
    → Emits (ok (saved true save body restore)) (ok (saved false save body restore))
Emits-saved save body restore h k l =
    emits body (save ++ (body ++ restore))
      (IsPartOf-before save body (body ++ restore) (IsPartOf-after restore (IsPartOf-refl body)))
      (all_have_target-append save (body ++ restore) h (all_have_target-append body restore k l))

pub Emits-argv_error : Emits (exits argv_error) (exits argv_error)
Emits-argv_error = refuses argv_error (inr refl)

-- The same, as a branch.
abbrev pub argv {ℓ} : {A : Type ℓ} → A → Emits (exits argv_error) (exits argv_error)
argv h = Emits-argv_error

pub Emits-wrong_nargs : Emits (exits wrong_nargs) (exits wrong_nargs)
Emits-wrong_nargs = refuses wrong_nargs (inl refl)

-- A branch; each side may use how the test ends.
pub Emits-if :
    (test : Bool) {x x' y y' : Svas (List SvasmAction)}
    → (test ≡ true → Emits x x')
    → (test ≡ false → Emits y y')
    → Emits (if test then x else y) (if test then x' else y')
Emits-if true h k = h refl
Emits-if false h k = k refl

-- The name of a register that a constant can be compiled for.
pub IsName : Text → Type 0
IsName name = (id : ℕ) × (register_at name ≡ ok id) × (is_target_id id ≡ true)

found_target : Option ℕ → Bool
found_target none = false
found_target (some id) = is_target_id id

found_target-IsName :
    (name : Text) (found : Option ℕ)
    → lookup strreg_to_reg name ≡ found
    → found_target found ≡ true
    → IsName name
unfolding found_target IsName
found_target-IsName name none e h = cc
found_target-IsName name (some id) e h = (id, ap (from_option exception) e, h)

all_names : List Text → Bool
all_names [] = true
all_names (name ∷ names) = found_target (lookup strreg_to_reg name) && all_names names

member-IsName :
    (names : List Text) (name : Text)
    → all_names names ≡ true
    → member names name ≡ true
    → IsName name
unfolding all_names member
member-IsName [] name h k = cc
member-IsName (n ∷ names) name h k =
    let (first, others) = and-true (found_target (lookup strreg_to_reg n)) (all_names names) h in
    elim (Bool-cases (text_eq n name)) [
      | inl same ↦
          subst IsName (eq_of_text_eq n name same)
            (found_target-IsName n (lookup strreg_to_reg n) refl first)
      | inr other ↦ member-IsName names name others (rw other at k)
    ]

registers-all_names : all_names registers ≡ true
unfolding all_names found_target is_target_id lookup is_num_reg is_fp_reg
registers-all_names = refl

fp_regs-all_names : all_names fp_regs ≡ true
unfolding all_names found_target is_target_id lookup is_num_reg is_fp_reg
fp_regs-all_names = refl

-- What the functions need of a token: a register exists.
abbrev pub IsKnown : Token → Type 0
IsKnown t = is_register t ≡ true → IsName t.element

typed_IsKnown :
    (labels : List Text) (type : TokenType) (s : Text)
    → IsToken labels (record { element = s; type = type })
    → (type is reg || type is fp_reg) ≡ true
    → IsName s
unfolding ◌is◌
typed_IsKnown labels reg s h k = member-IsName registers s registers-all_names h
typed_IsKnown labels fp_reg s h k = member-IsName fp_regs s fp_regs-all_names h
typed_IsKnown labels error_type s h k = cc
typed_IsKnown labels unsigned_n s h k = cc
typed_IsKnown labels signed_n s h k = cc
typed_IsKnown labels hex_n s h k = cc
typed_IsKnown labels double_n s h k = cc
typed_IsKnown labels str s h k = cc
typed_IsKnown labels stored_addr_reg s h k = cc
typed_IsKnown labels stored_addr_raw s h k = cc
typed_IsKnown labels label s h k = cc
typed_IsKnown labels safety_directive s h k = cc
typed_IsKnown labels memory_directive s h k = cc
typed_IsKnown labels type_quantifier s h k = cc

pub IsToken-IsKnown : (labels : List Text) (t : Token) → IsToken labels t → IsKnown t
IsToken-IsKnown labels t h = typed_IsKnown labels t.type t.element h

-- The register of a token that names one.
pub Emits-register_at :
    (t : Token) (f g : ℕ → Svas (List SvasmAction))
    → IsKnown t
    → is_register t ≡ true
    → ((id : ℕ) → is_target_id id ≡ true → Emits (f id) (g id))
    → Emits (register_at t.element >>= f) (register_at t.element >>= g)
unfolding IsName
Emits-register_at t f g known h k = let (id, found, target) = known h in rw found (k id target)

pub ruleset emission = (Emits-if, Emits-ok, Emits-saved, Emits-argv_error, Emits-wrong_nargs, refl)
