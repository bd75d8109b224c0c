-- ===== src/Svasm/Preprocessor/Emits/Instructions.antt =====
-- SVASM/Assembler/compiler.cpp, `preprocInst`: the errors of an instruction, and what `#unsafe`
-- changes.
use virtual_processing_unit.Prelude.{
  ◌≡◌, refl, Bool, true, false, List, [], ◌∷◌, All, ◌⊎◌, inl, inr, subst,
}
use virtual_processing_unit.Text.{Text}
use virtual_processing_unit.VirtualActions.{inc, dec}
use virtual_processing_unit.VirtualActions.Opcodes.{arg_kind}
use virtual_processing_unit.Svasm.{
  wrong_nargs, argv_error, Token, SvasError, Svas, ok, exits, SvasmAction, ok-injective,
}
use virtual_processing_unit.Svasm.Tokenizer.Types.{IsToken}
use virtual_processing_unit.Svasm.Preprocessor.{preproc_instruction}
use virtual_processing_unit.Svasm.Preprocessor.Actions.{preproc_inc, preproc_dec}
use virtual_processing_unit.Svasm.Preprocessor.Emits.{
  IsPartOf, IsUsageError, Emits, emits, refuses, emission, IsKnown, IsToken-IsKnown,
}
use virtual_processing_unit.Svasm.Preprocessor.Emits.Maths.{
  preproc_int-Emits, preproc_mov-Emits, preproc_str-Emits, preproc_step-Emits, preproc_math-Emits,
  preproc_lgcl_math-Emits, preproc_adv_math-Emits,
}
use virtual_processing_unit.Svasm.Preprocessor.Emits.Memory.{
  preproc_stack-Emits, preproc_heap-Emits,
}
use virtual_processing_unit.Svasm.Preprocessor.Emits.Control.{
  preproc_calls-Emits, preproc_cmp_calls-Emits, preproc_network-Emits, preproc_comps-Emits,
}

preproc_inc-Emits : (args : List Token) → Emits (preproc_inc args) (preproc_inc args)
unfolding preproc_inc arg_kind
preproc_inc-Emits args = preproc_step-Emits inc refl args

preproc_dec-Emits : (args : List Token) → Emits (preproc_dec args) (preproc_dec args)
unfolding preproc_dec arg_kind
preproc_dec-Emits args = preproc_step-Emits dec refl args

pub preproc_instruction-Emits :
    (inst : Text) (args : List Token)
    → All IsKnown args
    → Emits (preproc_instruction inst true args) (preproc_instruction inst false args)
unfolding preproc_instruction
preproc_instruction-Emits inst args known =
    search
      (
        emission,
        preproc_int-Emits,
        preproc_mov-Emits args known,
        preproc_inc-Emits,
        preproc_dec-Emits,
        preproc_math-Emits inst args known,
        preproc_lgcl_math-Emits,
        preproc_adv_math-Emits,
        preproc_stack-Emits,
        preproc_heap-Emits,
        preproc_str-Emits,
        preproc_calls-Emits,
        preproc_cmp_calls-Emits,
        preproc_comps-Emits,
        preproc_network-Emits,
      )
      depth 20

pub All-IsKnown :
    (labels : List Text) (args : List Token) → All (IsToken labels) args → All IsKnown args
All-IsKnown labels [] h = tt
All-IsKnown labels (t ∷ args) h = (IsToken-IsKnown labels t h.0, All-IsKnown labels args h.1)

exits-injective : (d e : SvasError) → ◌≡◌ {A = Svas (List SvasmAction)} (exits d) (exits e) → d ≡ e
exits-injective d e h = cc

error_of :
    {x y : Svas (List SvasmAction)} (e : SvasError)
    → Emits x y
    → (x ≡ exits e) ⊎ (y ≡ exits e)
    → IsUsageError e
error_of e (emits us ss p t) (inl h) = cc
error_of e (emits us ss p t) (inr h) = cc
error_of e (refuses d u) (inl h) = subst IsUsageError (exits-injective d e h) u
error_of e (refuses d u) (inr h) = subst IsUsageError (exits-injective d e h) u

safe_of :
    {x y : Svas (List SvasmAction)} (ss : List SvasmAction)
    → Emits x y
    → y ≡ ok ss
    → (us : List SvasmAction) × (x ≡ ok us) × IsPartOf us ss
safe_of ss (emits us ts p t) h = (us, refl, subst (IsPartOf us) (ok-injective ts ss h) p)
safe_of ss (refuses d u) h = cc

-- An instruction whose arguments come from the tokenizer can only fail by a wrong number of
-- arguments or by an argument that it does not take: no name of a register is unknown, and nothing
-- is read where there is none, in safe and in unsafe code.
pub preproc_instruction-errors :
    (labels : List Text) (inst : Text) (unsafe_flag : Bool) (args : List Token) (e : SvasError)
    → All (IsToken labels) args
    → preproc_instruction inst unsafe_flag args ≡ exits e
    → (e ≡ wrong_nargs) ⊎ (e ≡ argv_error)
preproc_instruction-errors labels inst true args e typed h =
    error_of e (preproc_instruction-Emits inst args (All-IsKnown labels args typed)) (inl h)
preproc_instruction-errors labels inst false args e typed h =
    error_of e (preproc_instruction-Emits inst args (All-IsKnown labels args typed)) (inr h)

-- An instruction whose arguments come from the tokenizer is accepted in unsafe code where it is in
-- safe code, and its actions there are those of safe code without some of them, in the same order.
pub preproc_instruction-unsafe :
    (labels : List Text) (inst : Text) (args : List Token) (ss : List SvasmAction)
    → All (IsToken labels) args
    → preproc_instruction inst false args ≡ ok ss
    → (us : List SvasmAction) × (preproc_instruction inst true args ≡ ok us) × IsPartOf us ss
preproc_instruction-unsafe labels inst args ss typed h =
    safe_of ss (preproc_instruction-Emits inst args (All-IsKnown labels args typed)) h
