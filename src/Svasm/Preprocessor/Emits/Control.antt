-- ===== src/Svasm/Preprocessor/Emits/Control.antt =====
-- SVASM/Assembler/compiler.cpp: the functions of Svasm/Preprocessor/Calls and
-- Svasm/Preprocessor/Comparisons, in safe and in unsafe code.
use virtual_processing_unit.Prelude.{◌≡◌, refl, Bool, true, false, List, [], ◌∷◌, if◌then◌else◌}
use virtual_processing_unit.Text.{Text}
use virtual_processing_unit.VirtualActions.{VirtualAction, set, nopen, ncrtep}
use virtual_processing_unit.VirtualActions.Opcodes.{word_argument, arg_kind}
use virtual_processing_unit.Svasm.{unsigned_n, Token, SvasmAction}
use virtual_processing_unit.Svasm.Preprocessor.Actions.{
  rdi_id, rsi_id, rdx_id, push_action, plain, preproc_jmp_cmp_calls, cr_to_num,
}
use virtual_processing_unit.Svasm.Preprocessor.Calls.{
  preproc_call, preproc_calls, preproc_jump, preproc_cmp_calls, preproc_open, preproc_connection,
  preproc_transfer, preproc_network,
}
use virtual_processing_unit.Svasm.Preprocessor.Comparisons.{
  cmp_num_cr, cmp_num_double, cmp_num_num, cmp_num, cmp_cr, cmp_fp_double, cmp_fp_num, cmp_fp,
  preproc_comps,
}
use virtual_processing_unit.Svasm.Preprocessor.Emits.{
  all_have_target, is_target_id, Emits, Emits-ok, emission,
}
use virtual_processing_unit.Svasm.Preprocessor.Emits.Memory.{EmitsBoth, target-if, both}

one_of_two :
    (test : Bool) (a b : SvasmAction)
    → all_have_target (a ∷ []) ≡ true
    → all_have_target (b ∷ []) ≡ true
    → all_have_target ((if test then a else b) ∷ []) ≡ true
one_of_two true a b h k = h
one_of_two false a b h k = k

preproc_call-Emits :
    (inst : Text) (arg : Token) → Emits (preproc_call inst arg) (preproc_call inst arg)
unfolding preproc_call arg_kind
preproc_call-Emits inst arg = search (emission, one_of_two) depth 8

pub preproc_calls-Emits :
    (inst : Text) (args : List Token) → Emits (preproc_calls inst args) (preproc_calls inst args)
unfolding preproc_calls arg_kind
preproc_calls-Emits inst [] = search emission
preproc_calls-Emits inst (arg ∷ []) = preproc_call-Emits inst arg
preproc_calls-Emits inst (a ∷ b ∷ args) = search emission

module _ (vaction : VirtualAction) (kind : arg_kind vaction ≡ word_argument) where
  jump_target : (t : Token) → all_have_target (preproc_jmp_cmp_calls vaction t) ≡ true
  unfolding preproc_jmp_cmp_calls arg_kind
  jump_target t = search (target-if, kind)

  preproc_connection-Emits :
      (args : List Token)
      → Emits (preproc_connection vaction args) (preproc_connection vaction args)
  unfolding preproc_connection
  preproc_connection-Emits [] = search emission
  preproc_connection-Emits (arg ∷ []) = Emits-ok _ (rw kind)
  preproc_connection-Emits (a ∷ b ∷ args) = search emission

  set_target :
      (raw raw' : Text)
      → all_have_target (push_action set unsigned_n raw rdi_id ∷ plain vaction unsigned_n raw' ∷ [])
        ≡ true
  unfolding arg_kind is_target_id
  set_target raw raw' = rw kind

  preproc_transfer-Emits :
      (args : List Token)
      → Emits (preproc_transfer vaction true args) (preproc_transfer vaction false args)
  unfolding preproc_transfer arg_kind is_target_id
  preproc_transfer-Emits [] = search emission
  preproc_transfer-Emits (a ∷ []) = search emission
  preproc_transfer-Emits (a ∷ b ∷ []) = search (emission, set_target)
  preproc_transfer-Emits (a ∷ b ∷ c ∷ args) = search emission

preproc_jump-target : (inst : Text) (arg : Token) → all_have_target (preproc_jump inst arg) ≡ true
unfolding preproc_jump arg_kind
preproc_jump-target inst arg = search (target-if, jump_target) depth 10

pub preproc_cmp_calls-Emits :
    (inst : Text) (args : List Token)
    → Emits (preproc_cmp_calls inst args) (preproc_cmp_calls inst args)
unfolding preproc_cmp_calls
preproc_cmp_calls-Emits inst [] = search emission
preproc_cmp_calls-Emits inst (arg ∷ []) = search (emission, preproc_jump-target)
preproc_cmp_calls-Emits inst (a ∷ b ∷ args) = search emission

open_target :
    (test : Bool) (a b c d : Text)
    → all_have_target (
        push_action set unsigned_n b rdi_id
        ∷ push_action set unsigned_n c rsi_id
        ∷ push_action set unsigned_n d rdx_id
        ∷ plain (if test then nopen else ncrtep) unsigned_n a
        ∷ [])
      ≡ true
unfolding arg_kind is_target_id
open_target true a b c d = refl
open_target false a b c d = refl

preproc_open-Emits :
    (inst : Text) (args : List Token)
    → Emits (preproc_open inst true args) (preproc_open inst false args)
unfolding preproc_open arg_kind is_target_id
preproc_open-Emits inst [] = search emission
preproc_open-Emits inst (a ∷ []) = search emission
preproc_open-Emits inst (a ∷ b ∷ []) = search emission
preproc_open-Emits inst (a ∷ b ∷ c ∷ []) = search emission
preproc_open-Emits inst (a ∷ b ∷ c ∷ d ∷ []) = search (emission, open_target)
preproc_open-Emits inst (a ∷ b ∷ c ∷ d ∷ e ∷ args) = search emission

pub preproc_network-Emits :
    (inst : Text) (args : List Token)
    → Emits (preproc_network inst true args) (preproc_network inst false args)
unfolding preproc_network arg_kind
preproc_network-Emits inst args =
    search (emission, preproc_open-Emits, preproc_connection-Emits, preproc_transfer-Emits) depth 10

cmp_num_cr-Emits : (a : Token) → EmitsBoth (cmp_num_cr true a) (cmp_num_cr false a)
unfolding cmp_num_cr arg_kind is_target_id cr_to_num
cmp_num_cr-Emits a = search both

cmp_num_double-Emits :
    (a b : Token) → EmitsBoth (cmp_num_double true a b) (cmp_num_double false a b)
unfolding cmp_num_double arg_kind is_target_id
cmp_num_double-Emits a b = search both

cmp_num_num-Emits : (a b : Token) → EmitsBoth (cmp_num_num true a b) (cmp_num_num false a b)
unfolding cmp_num_num arg_kind is_target_id
cmp_num_num-Emits a b = search both

cmp_num-Emits : (a b : Token) → EmitsBoth (cmp_num true a b) (cmp_num false a b)
unfolding cmp_num
cmp_num-Emits a b = search (both, cmp_num_cr-Emits, cmp_num_double-Emits, cmp_num_num-Emits) depth 8

cmp_cr-Emits : (b : Token) → Emits (cmp_cr true b) (cmp_cr false b)
unfolding cmp_cr arg_kind is_target_id cr_to_num
cmp_cr-Emits b = search emission depth 8

cmp_fp_double-Emits : (a b : Token) → EmitsBoth (cmp_fp_double true a b) (cmp_fp_double false a b)
unfolding cmp_fp_double arg_kind is_target_id
cmp_fp_double-Emits a b = search both

cmp_fp_num-Emits : (a b : Token) → EmitsBoth (cmp_fp_num true a b) (cmp_fp_num false a b)
unfolding cmp_fp_num arg_kind is_target_id
cmp_fp_num-Emits a b = search both

cmp_fp-Emits : (a b : Token) → Emits (cmp_fp true a b) (cmp_fp false a b)
unfolding cmp_fp
cmp_fp-Emits a b = search (emission, cmp_fp_double-Emits, cmp_fp_num-Emits) depth 8

pub preproc_comps-Emits :
    (args : List Token) → Emits (preproc_comps true args) (preproc_comps false args)
unfolding preproc_comps
preproc_comps-Emits [] = search emission
preproc_comps-Emits (a ∷ []) = search emission
preproc_comps-Emits (a ∷ b ∷ []) =
    search (emission, cmp_num-Emits, cmp_cr-Emits, cmp_fp-Emits) depth 8
preproc_comps-Emits (a ∷ b ∷ c ∷ args) = search emission
