-- ===== src/Svasm/Preprocessor/Emits/Maths.antt =====
-- SVASM/Assembler/compiler.cpp: int, mov, str, inc, dec and the functions of
-- Svasm/Preprocessor/Maths, in safe and in unsafe code.
use virtual_processing_unit.Prelude.{
  ℕ, ◌≡◌, refl, Bool, true, false, not, List, [], ◌∷◌, if◌then◌else◌, All, not-false,
}
use virtual_processing_unit.Text.{Text}
use virtual_processing_unit.VirtualActions.{VirtualAction, set, mov, push}
use virtual_processing_unit.VirtualActions.Opcodes.{register_argument, arg_kind}
use virtual_processing_unit.Svasm.{TokenType, reg, fp_reg, ◌is◌, Token}
use virtual_processing_unit.Svasm.Preprocessor.Actions.{
  push_action, plain, is_register, preproc_int, preproc_mov, mov_to, preproc_str, preproc_step,
}
use virtual_processing_unit.Svasm.Preprocessor.Maths.{
  with_number, preproc_operation, preproc_math, preproc_bits, preproc_not, preproc_lgcl_math,
  preproc_log, preproc_pow_fp, preproc_pow_num, preproc_pow, preproc_adv_math,
}
use virtual_processing_unit.Svasm.Preprocessor.Emits.{
  is_target_id, all_have_target, Emits, Emits-ok, argv, Emits-if, emission, IsKnown,
  Emits-register_at,
}

pub preproc_int-Emits : (args : List Token) → Emits (preproc_int args) (preproc_int args)
unfolding preproc_int arg_kind
preproc_int-Emits [] = search emission
preproc_int-Emits (arg ∷ []) = search emission
preproc_int-Emits (a ∷ b ∷ args) = search emission

if_target :
    (same : Bool) (kind : TokenType) (src : Token) (id : ℕ)
    → is_target_id id ≡ true
    → all_have_target (
        (if not same
          then push_action set src.type src.element id
          else push_action mov kind src.element id)
        ∷ [])
      ≡ true
unfolding arg_kind
if_target true kind src id t = refl
if_target false kind src id t = rw t

mov_to-Emits :
    (kind : TokenType) (dest src : Token)
    → IsKnown dest
    → is_register dest ≡ true
    → Emits (mov_to kind dest src) (mov_to kind dest src)
unfolding mov_to
mov_to-Emits kind dest src known h =
    Emits-register_at dest _ _ known h
      (λ id t. Emits-ok _ (if_target (src.type is kind) kind src id t))

pub preproc_mov-Emits :
    (args : List Token) → All IsKnown args → Emits (preproc_mov args) (preproc_mov args)
unfolding preproc_mov
preproc_mov-Emits (dest ∷ src ∷ []) known =
    Emits-if (dest.type is reg) (λ h. mov_to-Emits reg dest src known.0 (rw h))
      (λ other.
        Emits-if (dest.type is fp_reg) (λ h. mov_to-Emits fp_reg dest src known.0 (rw (other, h)))
          argv)
preproc_mov-Emits [] known = search emission
preproc_mov-Emits (a ∷ []) known = search emission
preproc_mov-Emits (a ∷ b ∷ c ∷ args) known = search emission

pub preproc_str-Emits : (args : List Token) → Emits (preproc_str args) (preproc_str args)
unfolding preproc_str arg_kind
preproc_str-Emits [] = search emission
preproc_str-Emits (arg ∷ []) = search emission
preproc_str-Emits (a ∷ b ∷ args) = search emission

-- The operations that differ in their action; it takes a register.
module _ (op : VirtualAction) (kind : arg_kind op ≡ register_argument) where
  one_target :
      (t : TokenType) (raw : Text) (id : ℕ) → all_have_target (push_action op t raw id ∷ []) ≡ true
  one_target t raw id = rw kind

  set_target :
      (s t : TokenType) (raw raw' : Text) (set_id id : ℕ)
      → is_target_id set_id ≡ true
      → all_have_target (push_action set s raw set_id ∷ push_action op t raw' id ∷ []) ≡ true
  unfolding arg_kind
  set_target s t raw raw' set_id id h = rw (h, kind)

  pub preproc_step-Emits : (args : List Token) → Emits (preproc_step op args) (preproc_step op args)
  unfolding preproc_step
  preproc_step-Emits [] = search emission
  preproc_step-Emits (arg ∷ []) = search (emission, one_target)
  preproc_step-Emits (a ∷ b ∷ args) = search emission

  with_number-Emits :
      (dest src : Token)
      → IsKnown dest
      → is_register dest ≡ true
      → Emits (with_number op true dest src) (with_number op false dest src)
  unfolding with_number is_target_id arg_kind
  with_number-Emits dest src known h =
      search (emission, set_target, Emits-register_at dest _ _ known h)

  pub preproc_operation-Emits :
      (dest src : Token)
      → IsKnown dest
      → Emits (preproc_operation op true dest src) (preproc_operation op false dest src)
  unfolding preproc_operation
  preproc_operation-Emits dest src known =
      search
        (
          emission,
          one_target,
          with_number-Emits dest src known,
          Emits-register_at dest _ _ known,
          not-false,
        )
        depth 10

  pushed_target :
      (s : TokenType) (raw raw' raw'' : Text) (set_id : ℕ)
      → is_target_id set_id ≡ true
      → all_have_target
          (push_action set s raw set_id ∷ plain push reg raw' ∷ plain op reg raw'' ∷ [])
        ≡ true
  unfolding arg_kind
  pushed_target s raw raw' raw'' set_id h = rw (h, kind)

  after_push :
      (raw raw' : Text) → all_have_target (plain push reg raw ∷ plain op reg raw' ∷ []) ≡ true
  unfolding arg_kind
  after_push raw raw' = rw kind

  pub preproc_bits-Emits :
      (args : List Token) → Emits (preproc_bits op true args) (preproc_bits op false args)
  unfolding preproc_bits arg_kind is_target_id
  preproc_bits-Emits [] = search emission
  preproc_bits-Emits (a ∷ []) = search emission
  preproc_bits-Emits (dest ∷ src ∷ []) = search (emission, pushed_target, after_push) depth 10
  preproc_bits-Emits (a ∷ b ∷ c ∷ args) = search emission

pub preproc_log-Emits :
    (on_reg on_fp : VirtualAction) (args : List Token)
    → arg_kind on_reg ≡ register_argument
    → arg_kind on_fp ≡ register_argument
    → Emits (preproc_log on_reg on_fp args) (preproc_log on_reg on_fp args)
unfolding preproc_log
preproc_log-Emits on_reg on_fp [] h k = search emission
preproc_log-Emits on_reg on_fp (arg ∷ []) h k =
    search (emission, one_target on_fp k, one_target on_reg h)
preproc_log-Emits on_reg on_fp (a ∷ b ∷ args) h k = search emission

pub preproc_math-Emits :
    (inst : Text) (args : List Token)
    → All IsKnown args
    → Emits (preproc_math inst true args) (preproc_math inst false args)
unfolding preproc_math arg_kind
preproc_math-Emits inst [] known = search emission
preproc_math-Emits inst (a ∷ []) known = search emission
preproc_math-Emits inst (dest ∷ src ∷ []) known =
    search
      (
        emission,
        λ (op : VirtualAction) (kind : arg_kind op ≡ register_argument).
            preproc_operation-Emits op kind dest src known.0,
      )
      depth 8
preproc_math-Emits inst (a ∷ b ∷ c ∷ args) known = search emission

preproc_not-Emits : (args : List Token) → Emits (preproc_not args) (preproc_not args)
unfolding preproc_not arg_kind
preproc_not-Emits [] = search emission
preproc_not-Emits (arg ∷ []) = search emission
preproc_not-Emits (a ∷ b ∷ args) = search emission

pub preproc_lgcl_math-Emits :
    (inst : Text) (args : List Token)
    → Emits (preproc_lgcl_math inst true args) (preproc_lgcl_math inst false args)
unfolding preproc_lgcl_math arg_kind
preproc_lgcl_math-Emits inst args =
    search (emission, preproc_not-Emits, preproc_bits-Emits) depth 10

preproc_pow_fp-Emits :
    (dest src : Token) → Emits (preproc_pow_fp true dest src) (preproc_pow_fp false dest src)
unfolding preproc_pow_fp arg_kind is_target_id
preproc_pow_fp-Emits dest src = search emission

preproc_pow_num-Emits :
    (dest src : Token) → Emits (preproc_pow_num true dest src) (preproc_pow_num false dest src)
unfolding preproc_pow_num arg_kind is_target_id
preproc_pow_num-Emits dest src = search emission depth 8

preproc_pow-Emits : (args : List Token) → Emits (preproc_pow true args) (preproc_pow false args)
unfolding preproc_pow
preproc_pow-Emits [] = search emission
preproc_pow-Emits (a ∷ []) = search emission
preproc_pow-Emits (dest ∷ src ∷ []) = search (emission, preproc_pow_fp-Emits, preproc_pow_num-Emits)
preproc_pow-Emits (a ∷ b ∷ c ∷ args) = search emission

pub preproc_adv_math-Emits :
    (inst : Text) (args : List Token)
    → Emits (preproc_adv_math inst true args) (preproc_adv_math inst false args)
unfolding preproc_adv_math arg_kind
preproc_adv_math-Emits inst args = search (emission, preproc_log-Emits, preproc_pow-Emits) depth 8
