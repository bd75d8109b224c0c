-- ===== src/Svasm/Preprocessor/Comparisons.antt =====
-- SVASM/Assembler/compiler.cpp, `preprocComps`: cmp.
use virtual_processing_unit.Prelude.{
  Bool, true, false, not, ◌&&◌, ◌||◌, List, [], ◌∷◌, ◌++◌, if◌then◌else◌,
}
use virtual_processing_unit.Text.{Text, codes, text_eq, member}
use virtual_processing_unit.VirtualActions.{int, set, push, push_fp, pop_fp, cmp, cmpdbl}
use virtual_processing_unit.Svasm.{
  unsigned_n, double_n, str, reg, fp_reg, ◌is◌, Token, Svas, ok, exits, wrong_nargs, argv_error,
  SvasmAction,
}
use virtual_processing_unit.Svasm.Preprocessor.Actions.{
  rax, rbx, rfpr2, rfpr3, rax_id, rbx_id, rfpr2_id, rfpr3_id, push_action, plain, saved, saved_reg,
  saved_fp, ◌named◌, is_register, cr_to_num,
}
use virtual_processing_unit.Svasm.Preprocessor.Heap.{is_address}

abbrev pub num_registers : List Text
num_registers =
    codes "ax"
    ∷ codes "bx"
    ∷ codes "cx"
    ∷ codes "dx"
    ∷ codes "eax"
    ∷ codes "ebx"
    ∷ codes "ecx"
    ∷ codes "edx"
    ∷ codes "rax"
    ∷ codes "rbx"
    ∷ codes "rcx"
    ∷ codes "rdx"
    ∷ codes "rbp"
    ∷ codes "rsp"
    ∷ []

-- A number register with CR.
unfoldable pub cmp_num_cr : Bool → Token → List SvasmAction
unfolding text_eq cr_to_num
cmp_num_cr unsafe_flag a =
    if a named rax
    then saved_reg unsafe_flag rbx (cr_to_num false ++ (plain push reg rax ∷ plain cmp reg [] ∷ []))
    else saved_reg unsafe_flag rax
        (cr_to_num true ++ (plain push reg a.element ∷ plain cmp reg [] ∷ []))

-- A number register with a floating-point register or number.
unfoldable pub cmp_num_double : Bool → Token → Token → List SvasmAction
unfolding ◌is◌
cmp_num_double unsafe_flag a b =
    if b.type is fp_reg
    then plain push_fp fp_reg b.element
      ∷ plain int unsigned_n (codes "11")
      ∷ plain push reg a.element
      ∷ plain cmp reg []
      ∷ []
    else saved_fp unsafe_flag rfpr3 (
        push_action set double_n b.element rfpr3_id
        ∷ plain push_fp fp_reg rfpr3
        ∷ plain int unsigned_n (codes "11")
        ∷ plain push reg a.element
        ∷ plain cmp reg []
        ∷ [])

-- A number register with a number or a number register.
unfoldable pub cmp_num_num : Bool → Token → Token → List SvasmAction
unfolding ◌is◌ text_eq
cmp_num_num unsafe_flag a b =
    if not (b.type is reg)
    then (if a named rax
        then saved_reg unsafe_flag rbx (
            push_action set b.type b.element rbx_id
            ∷ plain push reg a.element
            ∷ plain push reg rbx
            ∷ plain cmp reg []
            ∷ [])
        else saved_reg unsafe_flag rax (
            push_action set b.type b.element rax_id
            ∷ plain push reg a.element
            ∷ plain push reg rax
            ∷ plain cmp reg []
            ∷ []))
    else plain push reg b.element ∷ plain push reg a.element ∷ plain cmp reg [] ∷ []

-- A number register with what it may be compared with.
unfoldable pub cmp_num : Bool → Token → Token → List SvasmAction
unfolding ◌is◌ text_eq cmp_num_cr cmp_num_double cmp_num_num
cmp_num unsafe_flag a b =
    if (b named codes "sr" && b.type is reg) || b.type is str
    then []
    else if b named codes "cr"
    then cmp_num_cr unsafe_flag a
    else if b.type is fp_reg || b.type is double_n
    then cmp_num_double unsafe_flag a b
    else cmp_num_num unsafe_flag a b

-- CR with what it may be compared with.
unfoldable pub cmp_cr : Bool → Token → Svas (List SvasmAction)
unfolding ◌is◌ text_eq cr_to_num
cmp_cr unsafe_flag b =
    if b named codes "sr" || b.type is str
    then ok []
    else if b.type is fp_reg || b.type is double_n
    then exits argv_error
    else if not (b.type is reg)
    then ok (
        saved_reg unsafe_flag rax (
          (push_action set b.type b.element rax_id ∷ plain push reg rax ∷ [])
          ++ (cr_to_num true ++ (plain cmp reg [] ∷ []))))
    else ok (
        saved_reg unsafe_flag rax
          (plain push reg b.element ∷ (cr_to_num true ++ (plain cmp reg [] ∷ []))))

-- A floating-point register with a number. The token that names the register to restore has the
-- type of a number register, as in the source.
unfoldable pub cmp_fp_double : Bool → Token → Token → List SvasmAction
unfolding text_eq
cmp_fp_double unsafe_flag a b =
    if a named rfpr3
    then saved unsafe_flag (plain push_fp fp_reg rfpr2 ∷ [])
        (push_action set double_n b.element rfpr2_id
          ∷ plain push_fp fp_reg rfpr2
          ∷ plain push_fp fp_reg rfpr3
          ∷ plain cmpdbl reg []
          ∷ [])
        (plain pop_fp reg rfpr2 ∷ [])
    else saved unsafe_flag (plain push_fp fp_reg rfpr3 ∷ [])
        (push_action set double_n b.element rfpr3_id
          ∷ plain push_fp fp_reg rfpr3
          ∷ plain push_fp fp_reg a.element
          ∷ plain cmpdbl reg []
          ∷ [])
        (plain pop_fp reg rfpr3 ∷ [])

-- A floating-point register with a number register or what else is left. RAX is pushed again at the
-- end, as in the source.
unfoldable pub cmp_fp_num : Bool → Token → Token → List SvasmAction
unfolding ◌is◌
cmp_fp_num unsafe_flag a b =
    if b.type is reg
    then plain push reg b.element
      ∷ plain push_fp fp_reg a.element
      ∷ plain int unsigned_n (codes "11")
      ∷ plain cmp reg []
      ∷ []
    else saved unsafe_flag (plain push reg rax ∷ [])
        (push_action set unsigned_n b.element rax_id
          ∷ plain push reg rax
          ∷ plain push_fp fp_reg a.element
          ∷ plain int unsigned_n (codes "11")
          ∷ plain cmp reg []
          ∷ [])
        (plain push reg rax ∷ [])

-- A floating-point register with what it may be compared with.
unfoldable pub cmp_fp : Bool → Token → Token → Svas (List SvasmAction)
unfolding ◌is◌ text_eq cmp_fp_double cmp_fp_num
cmp_fp unsafe_flag a b =
    if b named codes "sr" || b.type is str
    then ok []
    else if b named codes "cr"
    then exits argv_error
    else if b.type is double_n
    then ok (cmp_fp_double unsafe_flag a b)
    else ok (cmp_fp_num unsafe_flag a b)

-- `preprocComps`.
unfoldable pub preproc_comps : Bool → List Token → Svas (List SvasmAction)
unfolding ◌is◌ text_eq member cmp_num cmp_cr cmp_fp
preproc_comps unsafe_flag (a ∷ b ∷ []) =
    if not (is_register a) || is_address b
    then exits argv_error
    else if member num_registers a.element
    then ok (cmp_num unsafe_flag a b)
    else if a named codes "cr"
    then cmp_cr unsafe_flag b
    else if a.type is fp_reg
    then cmp_fp unsafe_flag a b
    else ok []
preproc_comps unsafe_flag args = exits wrong_nargs
