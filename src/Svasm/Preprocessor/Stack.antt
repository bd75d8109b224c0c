-- ===== src/Svasm/Preprocessor/Stack.antt =====
-- SVASM/Assembler/compiler.cpp, `preprocStack`: push and pop.
use virtual_processing_unit.Prelude.{
  ℕ, ◌+◌, ◌*◌, Bool, not, ◌&&◌, ◌||◌, List, [], ◌∷◌, if◌then◌else◌,
}
use virtual_processing_unit.Text.{codes, text_eq, to_string}
use virtual_processing_unit.VirtualActions.{
  set, add, sub, push, pop, push_cr, pop_cr, push_fp, pop_fp, movsm, movgm,
}
use virtual_processing_unit.Svasm.{
  unsigned_n, signed_n, double_n, str, reg, fp_reg, stored_addr_reg, stored_addr_raw, label,
  type_quantifier, ◌is◌, Token, Svas, ok, exits, wrong_nargs, argv_error, SvasmAction,
}
use virtual_processing_unit.Svasm.Tokenizer.{inner}
use virtual_processing_unit.Svasm.Preprocessor.Actions.{
  rax, rfpr3, rax_id, rsp_id, rfpr3_id, push_action, plain, saved, ◌named◌, is_register,
  svopt_to_tq, svopt_to_ts,
}

-- The pointer of the stack is moved by a number.
abbrev pub sub_rsp : ℕ → SvasmAction
sub_rsp n = push_action sub unsigned_n (to_string n) rsp_id

abbrev pub add_rsp : ℕ → SvasmAction
add_rsp n = push_action add unsigned_n (to_string n) rsp_id

abbrev pub size_of_size_t : ℕ
size_of_size_t = 8

abbrev pub size_of_long_double : ℕ
size_of_long_double = 16

-- push and pop of a register.
unfoldable pub push_register : Token → List SvasmAction
unfolding text_eq ◌is◌
push_register arg =
    if arg named codes "cr"
    then plain push_cr reg [] ∷ []
    else if arg.type is fp_reg
    then plain push_fp fp_reg arg.element ∷ []
    else plain push reg arg.element ∷ []

unfoldable pub pop_register : Token → List SvasmAction
unfolding text_eq ◌is◌
pop_register arg =
    if arg named codes "cr"
    then plain pop_cr reg [] ∷ []
    else if arg.type is fp_reg
    then plain pop_fp fp_reg arg.element ∷ []
    else plain pop reg arg.element ∷ []

-- push of a constant.
unfoldable pub push_constant : Bool → Token → List SvasmAction
unfolding ◌is◌ to_string
push_constant unsafe_flag arg =
    if arg.type is unsigned_n || arg.type is signed_n
    then saved unsafe_flag
        (sub_rsp size_of_size_t ∷ plain push reg rax ∷ add_rsp (2 * size_of_size_t) ∷ [])
        (push_action set arg.type arg.element rax_id ∷ plain push reg rax ∷ [])
        (sub_rsp size_of_size_t ∷ plain pop reg rax ∷ [])
    else if arg.type is double_n
    then saved unsafe_flag
        (sub_rsp size_of_long_double
          ∷ plain push_fp fp_reg rfpr3
          ∷ add_rsp (2 * size_of_long_double)
          ∷ [])
        (push_action set double_n arg.element rfpr3_id ∷ plain push_fp fp_reg rfpr3 ∷ [])
        (sub_rsp size_of_long_double ∷ plain pop_fp fp_reg rfpr3 ∷ [])
    else []

-- With one argument; `is_push` tells push from pop.
unfoldable pub preproc_stack_one : Bool → Bool → Token → Svas (List SvasmAction)
unfolding ◌is◌ push_register pop_register push_constant
preproc_stack_one is_push unsafe_flag arg =
    if arg.type is type_quantifier || (arg.type is label || arg.type is str)
    then exits argv_error
    else if is_register arg
    then ok (if is_push then push_register arg else pop_register arg)
    else if not (arg.type is type_quantifier)
        && (not (arg.type is stored_addr_raw) && not (arg.type is stored_addr_reg))
    then (if is_push then ok (push_constant unsafe_flag arg) else exits argv_error)
    else exits argv_error

-- push of a register or of memory with a quantifier.
unfoldable pub push_quantified : Bool → Token → Token → List SvasmAction
unfolding ◌is◌ to_string svopt_to_tq svopt_to_ts
push_quantified unsafe_flag quantifier arg =
    if arg.type is reg
    then push_action push reg arg.element (svopt_to_tq quantifier.element) ∷ []
    else if arg.type is stored_addr_raw
    then saved unsafe_flag
        (sub_rsp (svopt_to_ts quantifier.element)
          ∷ plain push reg rax
          ∷ add_rsp (size_of_size_t + svopt_to_ts quantifier.element)
          ∷ [])
        (push_action set unsigned_n arg.element rax_id
          ∷ push_action movgm reg rax (svopt_to_tq quantifier.element)
          ∷ [])
        (sub_rsp size_of_size_t ∷ plain pop reg rax ∷ [])
    else if arg.type is stored_addr_reg
    then push_action movgm reg (inner arg.element) (svopt_to_tq quantifier.element) ∷ []
    else []

-- pop to a register or to memory with a quantifier; to memory the source converts the address where
-- the quantifier is meant.
unfoldable pub pop_quantified : Bool → Token → Token → List SvasmAction
unfolding ◌is◌ to_string svopt_to_tq svopt_to_ts
pop_quantified unsafe_flag quantifier arg =
    if arg.type is reg
    then push_action pop reg arg.element (svopt_to_tq quantifier.element) ∷ []
    else if arg.type is stored_addr_raw
    then saved unsafe_flag (plain push reg rax ∷ add_rsp size_of_size_t ∷ [])
        (push_action set unsigned_n arg.element rax_id
          ∷ push_action movsm reg rax (svopt_to_tq arg.element)
          ∷ [])
        (sub_rsp (svopt_to_ts quantifier.element + size_of_size_t)
          ∷ plain pop reg rax
          ∷ add_rsp (svopt_to_ts quantifier.element)
          ∷ [])
    else if arg.type is stored_addr_reg
    then push_action movsm reg (inner arg.element) (svopt_to_tq arg.element) ∷ []
    else []

-- With two arguments.
unfoldable pub preproc_stack_two : Bool → Bool → Token → Token → Svas (List SvasmAction)
unfolding ◌is◌ push_quantified pop_quantified
preproc_stack_two is_push unsafe_flag quantifier arg =
    if not (quantifier.type is type_quantifier) || (arg.type is label || arg.type is str)
    then exits argv_error
    else if not (arg.type is reg)
        && (not (arg.type is stored_addr_raw) && not (arg.type is stored_addr_reg))
    then exits argv_error
    else ok (
        if is_push
        then push_quantified unsafe_flag quantifier arg
        else pop_quantified unsafe_flag quantifier arg)

-- `preprocStack`.
unfoldable pub preproc_stack : Bool → Bool → List Token → Svas (List SvasmAction)
unfolding preproc_stack_one preproc_stack_two
preproc_stack is_push unsafe_flag (arg ∷ []) = preproc_stack_one is_push unsafe_flag arg
preproc_stack is_push unsafe_flag (quantifier ∷ arg ∷ []) =
    preproc_stack_two is_push unsafe_flag quantifier arg
preproc_stack is_push unsafe_flag args = exits wrong_nargs
