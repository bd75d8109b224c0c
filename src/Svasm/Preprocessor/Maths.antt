-- ===== src/Svasm/Preprocessor/Maths.antt =====
-- SVASM/Assembler/compiler.cpp: mul, div, add and sub (`preprocMath`), the operations on bits
-- (`preprocLgclMath`), and logarithms and powers (`preprocAdvMath`).
use virtual_processing_unit.Prelude.{Bool, not, ◌&&◌, ◌||◌, List, [], ◌∷◌, if◌then◌else◌, take}
use virtual_processing_unit.Text.{Text, codes, text_eq, lookup}
use virtual_processing_unit.VirtualActions.{
  VirtualAction, int, set, mul, div, add, sub, push, push_fp, bit_not, bit_and, bit_or, bit_xor,
  shl, shr, log, log2, log10, pow, dlog, dlog2, dlog10, dpow, pop_fp,
}
use virtual_processing_unit.Svasm.{
  unsigned_n, signed_n, double_n, reg, fp_reg, ◌is◌, Token, Svas, ok, exits, ◌>>=◌, wrong_nargs,
  argv_error, SvasmAction,
}
use virtual_processing_unit.Svasm.Preprocessor.Actions.{
  rax, rbx, rfpr2, rfpr3, rax_id, rbx_id, rfpr2_id, rfpr3_id, push_action, plain, saved, saved_reg,
  saved_fp, ◌named◌, is_register, register_at,
}

-- The operation with a number, by way of a register that is not the destination.
unfoldable pub with_number : VirtualAction → Bool → Token → Token → Svas (List SvasmAction)
unfolding ◌is◌ text_eq lookup
with_number op unsafe_flag dest src =
    if not (src.type is double_n)
    then (if not (dest named rax)
        then (do
          id ← register_at dest.element
          ok (
              saved_reg unsafe_flag rax
                (push_action set src.type src.element rax_id ∷ push_action op reg rax id ∷ [])))
        else ok (
            saved_reg unsafe_flag rbx
              (push_action set src.type src.element rbx_id ∷ push_action op reg rbx rax_id ∷ [])))
    else (if not (dest named rfpr3)
        then (do
          id ← register_at dest.element
          ok (
              saved_fp unsafe_flag rfpr3 (
                push_action set double_n src.element rfpr3_id
                ∷ push_action op fp_reg rfpr3 id
                ∷ [])))
        else ok (
            saved_fp unsafe_flag rfpr2 (
              push_action set double_n src.element rfpr2_id
              ∷ push_action op fp_reg rfpr2 rfpr3_id
              ∷ [])))

-- The branch of `preprocMath` for one of the four operations, which differ in their action.
unfoldable pub preproc_operation : VirtualAction → Bool → Token → Token → Svas (List SvasmAction)
unfolding ◌is◌ text_eq lookup with_number
preproc_operation op unsafe_flag dest src =
    if not (is_register dest)
    then exits argv_error
    else if dest named codes "cr"
    then exits argv_error
    else if not (is_register src)
    then (if not (src.type is unsigned_n || (src.type is signed_n || src.type is double_n))
        then exits argv_error
        else with_number op unsafe_flag dest src)
    else (do
      id ← register_at dest.element
      ok (push_action op (if dest.type is reg then reg else fp_reg) src.element id ∷ []))

-- `preprocMath`.
unfoldable pub preproc_math : Text → Bool → List Token → Svas (List SvasmAction)
unfolding text_eq preproc_operation
preproc_math inst unsafe_flag (dest ∷ src ∷ []) =
    if text_eq inst (codes "mul")
    then preproc_operation mul unsafe_flag dest src
    else if text_eq inst (codes "div")
    then preproc_operation div unsafe_flag dest src
    else if text_eq inst (codes "add")
    then preproc_operation add unsafe_flag dest src
    else if text_eq inst (codes "sub")
    then preproc_operation sub unsafe_flag dest src
    else ok []
preproc_math inst unsafe_flag args = exits wrong_nargs

-- A number on the stack by way of a register, and an action on another register.
abbrev pub push_number_by_rax : VirtualAction → Bool → Token → Text → List SvasmAction
push_number_by_rax op unsafe_flag src name =
    saved_reg unsafe_flag rax
      (push_action set unsigned_n src.element rax_id ∷ plain push reg rax ∷ plain op reg name ∷ [])

abbrev pub push_number_by_rbx : VirtualAction → Bool → Token → Text → List SvasmAction
push_number_by_rbx op unsafe_flag src name =
    saved_reg unsafe_flag rbx
      (push_action set unsigned_n src.element rbx_id ∷ plain push reg rbx ∷ plain op reg name ∷ [])

-- The branch of `preprocLgclMath` for an operation with two arguments.
unfoldable pub preproc_bits : VirtualAction → Bool → List Token → Svas (List SvasmAction)
unfolding ◌is◌ text_eq
preproc_bits op unsafe_flag (dest ∷ src ∷ []) =
    if not (dest.type is reg)
    then exits argv_error
    else if dest named codes "cr" || src named codes "cr"
    then exits argv_error
    else if not (src.type is reg)
    then (if not (src.type is unsigned_n)
        then exits argv_error
        else if dest named rax
        then ok (push_number_by_rbx op unsafe_flag src rax)
        else ok (push_number_by_rax op unsafe_flag src dest.element))
    else ok (plain push reg src.element ∷ plain op reg dest.element ∷ [])
preproc_bits op unsafe_flag args = exits wrong_nargs

unfoldable pub preproc_not : List Token → Svas (List SvasmAction)
unfolding ◌is◌ text_eq
preproc_not (arg ∷ []) =
    if not (arg.type is reg)
    then exits argv_error
    else if arg named codes "cr"
    then exits argv_error
    else ok (plain bit_not reg arg.element ∷ [])
preproc_not args = exits wrong_nargs

-- `preprocLgclMath`.
unfoldable pub preproc_lgcl_math : Text → Bool → List Token → Svas (List SvasmAction)
unfolding text_eq preproc_not preproc_bits
preproc_lgcl_math inst unsafe_flag args =
    if text_eq inst (codes "not")
    then preproc_not args
    else if text_eq inst (codes "and")
    then preproc_bits bit_and unsafe_flag args
    else if text_eq inst (codes "xor")
    then preproc_bits bit_xor unsafe_flag args
    else if text_eq inst (codes "or")
    then preproc_bits bit_or unsafe_flag args
    else if text_eq inst (codes "shr")
    then preproc_bits shr unsafe_flag args
    else if text_eq inst (codes "shl")
    then preproc_bits shl unsafe_flag args
    else ok []

-- The branch of `preprocAdvMath` for a logarithm, with its actions for the two kinds of registers.
unfoldable pub preproc_log : VirtualAction → VirtualAction → List Token → Svas (List SvasmAction)
unfolding ◌is◌ text_eq
preproc_log on_reg on_fp (arg ∷ []) =
    if not (is_register arg)
    then exits argv_error
    else if arg named codes "cr"
    then exits argv_error
    else if arg.type is fp_reg
    then ok (plain on_fp fp_reg arg.element ∷ [])
    else ok (plain on_reg reg arg.element ∷ [])
preproc_log on_reg on_fp args = exits wrong_nargs

-- A power of a floating-point register. The register that is restored is spelled as in the source.
unfoldable pub preproc_pow_fp : Bool → Token → Token → Svas (List SvasmAction)
unfolding ◌is◌ text_eq
preproc_pow_fp unsafe_flag dest src =
    if not (src.type is double_n) && not (src.type is fp_reg)
    then exits argv_error
    else if src.type is fp_reg
    then ok (plain push_fp fp_reg src.element ∷ plain dpow fp_reg dest.element ∷ [])
    else if not (dest named rfpr3)
    then ok (
        saved unsafe_flag (plain push_fp fp_reg rfpr3 ∷ [])
          (push_action set double_n src.element rfpr3_id
            ∷ plain push_fp fp_reg rfpr3
            ∷ plain dpow fp_reg dest.element
            ∷ [])
          (plain pop_fp fp_reg (codes "rpfr3") ∷ []))
    else ok (
        saved unsafe_flag (plain push_fp fp_reg rfpr2 ∷ [])
          (push_action set double_n src.element rfpr2_id
            ∷ plain push_fp fp_reg rfpr2
            ∷ plain dpow fp_reg rfpr3
            ∷ [])
          (plain pop_fp fp_reg (codes "rpfr2") ∷ []))

-- `starts_with("rfpr")`.
abbrev pub starts_with_rfpr : Text → Bool
starts_with_rfpr name = text_eq (take 4 name) (codes "rfpr")

-- A power of a number register.
unfoldable pub preproc_pow_num : Bool → Token → Token → Svas (List SvasmAction)
unfolding ◌is◌ text_eq
preproc_pow_num unsafe_flag dest src =
    if not (src.type is unsigned_n) && (not (src.type is reg) && not (src.type is fp_reg))
    then exits argv_error
    else if not (src.type is unsigned_n)
    then (if src.type is reg
        then ok (plain push reg src.element ∷ plain pow reg dest.element ∷ [])
        else if starts_with_rfpr src.element
        then ok (
            plain push_fp fp_reg src.element
            ∷ plain int unsigned_n (codes "11")
            ∷ plain pow reg dest.element
            ∷ [])
        else ok (
            saved_fp unsafe_flag rfpr3 (
              push_action set fp_reg src.element rfpr3_id
              ∷ plain push_fp fp_reg rfpr3
              ∷ plain int unsigned_n (codes "11")
              ∷ plain pow reg dest.element
              ∷ [])))
    else if dest named rax
    then ok (push_number_by_rbx pow unsafe_flag src dest.element)
    else ok (push_number_by_rax pow unsafe_flag src dest.element)

unfoldable pub preproc_pow : Bool → List Token → Svas (List SvasmAction)
unfolding ◌is◌ text_eq preproc_pow_fp preproc_pow_num
preproc_pow unsafe_flag (dest ∷ src ∷ []) =
    if not (is_register dest)
    then exits argv_error
    else if dest named codes "cr" || src named codes "cr"
    then exits argv_error
    else if dest.type is fp_reg
    then preproc_pow_fp unsafe_flag dest src
    else preproc_pow_num unsafe_flag dest src
preproc_pow unsafe_flag args = exits wrong_nargs

-- `preprocAdvMath`.
unfoldable pub preproc_adv_math : Text → Bool → List Token → Svas (List SvasmAction)
unfolding text_eq preproc_log preproc_pow
preproc_adv_math inst unsafe_flag args =
    if text_eq inst (codes "log")
    then preproc_log log dlog args
    else if text_eq inst (codes "log2")
    then preproc_log log2 dlog2 args
    else if text_eq inst (codes "log10")
    then preproc_log log10 dlog10 args
    else if text_eq inst (codes "pow")
    then preproc_pow unsafe_flag args
    else ok []
