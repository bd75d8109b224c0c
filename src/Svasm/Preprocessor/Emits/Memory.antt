-- ===== src/Svasm/Preprocessor/Emits/Memory.antt =====
-- SVASM/Assembler/compiler.cpp: the functions of Svasm/Preprocessor/Stack and
-- Svasm/Preprocessor/Heap, in safe and in unsafe code.
use virtual_processing_unit.Prelude.{
  ℕ, ◌≡◌, refl, Bool, true, false, not, ◌&&◌, ◌||◌, List, [], ◌∷◌, ◌++◌, if◌then◌else◌,
}
use virtual_processing_unit.Text.{Text}
use virtual_processing_unit.VirtualActions.Opcodes.{arg_kind}
use virtual_processing_unit.Svasm.{Token, ok, SvasmAction}
use virtual_processing_unit.Svasm.Preprocessor.Stack.{
  push_register, pop_register, push_constant, preproc_stack_one, push_quantified, pop_quantified,
  preproc_stack_two, preproc_stack,
}
use virtual_processing_unit.Svasm.Preprocessor.Heap.{
  store_register_at_register, store_register_at_number, store_number, store_double, mload_store,
  load_at_register, load_at_number, preproc_mload, preproc_sdzs, preproc_heap,
}
use virtual_processing_unit.Svasm.Preprocessor.Emits.{
  all_have_target, is_target_id, IsPartOf, Emits, Emits-ok, Emits-saved, Emits-if, emission,
}

-- The two lists of actions that an instruction without errors emits.
abbrev pub EmitsBoth : List SvasmAction → List SvasmAction → Type 0
EmitsBoth us ss = Emits (ok us) (ok ss)

-- A branch between lists of actions.
pub EmitsBoth-if :
    (test : Bool) {x x' y y' : List SvasmAction}
    → (test ≡ true → EmitsBoth x x')
    → (test ≡ false → EmitsBoth y y')
    → EmitsBoth (if test then x else y) (if test then x' else y')
EmitsBoth-if true h k = h refl
EmitsBoth-if false h k = k refl

pub target-if :
    (test : Bool) (x y : List SvasmAction)
    → all_have_target x ≡ true
    → all_have_target y ≡ true
    → all_have_target (if test then x else y) ≡ true
target-if true x y h k = h
target-if false x y h k = k

pub ruleset both = (EmitsBoth-if, Emits-ok, Emits-saved, refl)

push_register-Emits : (arg : Token) → EmitsBoth (push_register arg) (push_register arg)
unfolding push_register arg_kind
push_register-Emits arg = search both

pop_register-Emits : (arg : Token) → EmitsBoth (pop_register arg) (pop_register arg)
unfolding pop_register arg_kind
pop_register-Emits arg = search both

push_constant-Emits : (arg : Token) → EmitsBoth (push_constant true arg) (push_constant false arg)
unfolding push_constant arg_kind is_target_id
push_constant-Emits arg = search both

preproc_stack_one-Emits :
    (is_push : Bool) (arg : Token)
    → Emits (preproc_stack_one is_push true arg) (preproc_stack_one is_push false arg)
unfolding preproc_stack_one
preproc_stack_one-Emits is_push arg =
    search (emission, EmitsBoth-if, push_register-Emits, pop_register-Emits, push_constant-Emits)
      depth 8

push_quantified-Emits :
    (quantifier arg : Token)
    → EmitsBoth (push_quantified true quantifier arg) (push_quantified false quantifier arg)
unfolding push_quantified arg_kind is_target_id
push_quantified-Emits quantifier arg = search both

pop_quantified-Emits :
    (quantifier arg : Token)
    → EmitsBoth (pop_quantified true quantifier arg) (pop_quantified false quantifier arg)
unfolding pop_quantified arg_kind is_target_id
pop_quantified-Emits quantifier arg = search both

preproc_stack_two-Emits :
    (is_push : Bool) (quantifier arg : Token)
    → Emits
        (preproc_stack_two is_push true quantifier arg)
        (preproc_stack_two is_push false quantifier arg)
unfolding preproc_stack_two
preproc_stack_two-Emits is_push quantifier arg =
    search (emission, EmitsBoth-if, push_quantified-Emits, pop_quantified-Emits)

pub preproc_stack-Emits :
    (is_push : Bool) (args : List Token)
    → Emits (preproc_stack is_push true args) (preproc_stack is_push false args)
unfolding preproc_stack
preproc_stack-Emits is_push [] = search emission
preproc_stack-Emits is_push (arg ∷ []) = preproc_stack_one-Emits is_push arg
preproc_stack-Emits is_push (quantifier ∷ arg ∷ []) = preproc_stack_two-Emits is_push quantifier arg
preproc_stack-Emits is_push (a ∷ b ∷ c ∷ args) = search emission

store_register_at_register-Emits :
    (address src : Token)
    → EmitsBoth
        (store_register_at_register true address src)
        (store_register_at_register false address src)
unfolding store_register_at_register arg_kind
store_register_at_register-Emits address src = search both

store_register_at_number-Emits :
    (address src : Token)
    → EmitsBoth
        (store_register_at_number true address src)
        (store_register_at_number false address src)
unfolding store_register_at_number arg_kind is_target_id
store_register_at_number-Emits address src = search (both, target-if) depth 7

store_number-Emits :
    (address src : Token)
    → EmitsBoth (store_number true address src) (store_number false address src)
unfolding store_number arg_kind is_target_id
store_number-Emits address src = search both

store_double-Emits :
    (address src : Token)
    → EmitsBoth (store_double true address src) (store_double false address src)
unfolding store_double arg_kind is_target_id
store_double-Emits address src = search both

mload_store-Emits :
    (address src : Token) → EmitsBoth (mload_store true address src) (mload_store false address src)
unfolding mload_store
mload_store-Emits address src = search (
  both, store_register_at_register-Emits, store_register_at_number-Emits, store_number-Emits,
  store_double-Emits,
)

load_at_register-Emits :
    (dest address : Token)
    → EmitsBoth (load_at_register true dest address) (load_at_register false dest address)
unfolding load_at_register arg_kind
load_at_register-Emits dest address = search both

load_at_number-Emits :
    (dest address : Token)
    → EmitsBoth (load_at_number true dest address) (load_at_number false dest address)
unfolding load_at_number arg_kind is_target_id
load_at_number-Emits dest address = search (both, target-if) depth 7

preproc_mload-Emits :
    (args : List Token) → Emits (preproc_mload true args) (preproc_mload false args)
unfolding preproc_mload
preproc_mload-Emits [] = search emission
preproc_mload-Emits (a ∷ []) = search emission
preproc_mload-Emits (dest ∷ src ∷ []) =
    search (emission, EmitsBoth-if, mload_store-Emits, load_at_register-Emits, load_at_number-Emits)
preproc_mload-Emits (a ∷ b ∷ c ∷ args) = search emission

preproc_sdzs-Emits : (args : List Token) → Emits (preproc_sdzs args) (preproc_sdzs args)
unfolding preproc_sdzs arg_kind
preproc_sdzs-Emits [] = search emission
preproc_sdzs-Emits (arg ∷ []) = search emission
preproc_sdzs-Emits (a ∷ b ∷ args) = search emission

pub preproc_heap-Emits :
    (inst : Text) (args : List Token)
    → Emits (preproc_heap inst true args) (preproc_heap inst false args)
unfolding preproc_heap
preproc_heap-Emits inst args = search (emission, preproc_mload-Emits, preproc_sdzs-Emits)
