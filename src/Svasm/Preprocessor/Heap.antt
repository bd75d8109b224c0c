-- ===== src/Svasm/Preprocessor/Heap.antt =====
-- SVASM/Assembler/compiler.cpp, `preprocHeap`: mload and sdzs.
use virtual_processing_unit.Prelude.{Bool, not, ◌&&◌, ◌||◌, List, [], ◌∷◌, if◌then◌else◌}
use virtual_processing_unit.Text.{Text, codes, text_eq}
use virtual_processing_unit.VirtualActions.{
  set, mov, push, pop, push_fp, pop_fp, movsm, movgm, movsm_cr, movgm_cr, movsm_fp, movgm_fp, sdzs,
}
use virtual_processing_unit.Svasm.{
  unsigned_n, signed_n, double_n, reg, fp_reg, stored_addr_reg, stored_addr_raw, ◌is◌, Token, Svas,
  ok, exits, wrong_nargs, argv_error, SvasmAction,
}
use virtual_processing_unit.Svasm.Tokenizer.{inner}
use virtual_processing_unit.Svasm.Preprocessor.Actions.{
  rax, rbx, rfpr3, rax_id, rbx_id, rfpr3_id, push_action, plain, saved, saved_reg, saved_fp,
  ◌named◌, is_register,
}

abbrev pub is_address : Token → Bool
is_address t = t.type is stored_addr_reg || t.type is stored_addr_raw

-- A register into memory, at an address in a register.
unfoldable pub store_register_at_register : Bool → Token → Token → List SvasmAction
unfolding ◌is◌ text_eq
store_register_at_register unsafe_flag address src =
    if src named codes "cr"
    then plain movsm_cr reg (inner address.element) ∷ []
    else if src.type is fp_reg
    then (if text_eq (inner address.element) rax
        then plain movsm_fp fp_reg src.element ∷ []
        else saved_reg unsafe_flag rax (
            push_action mov reg (inner address.element) rax_id
            ∷ plain movsm_fp fp_reg src.element
            ∷ []))
    else plain push reg src.element ∷ plain movsm reg (inner address.element) ∷ []

-- A register into memory, at an immediate address.
unfoldable pub store_register_at_number : Bool → Token → Token → List SvasmAction
unfolding ◌is◌ text_eq
store_register_at_number unsafe_flag address src =
    if not (src named rax)
    then saved_reg unsafe_flag rax (
        push_action set unsigned_n address.element rax_id
        ∷ (if src named codes "cr"
            then plain movsm_cr reg rax ∷ []
            else if src.type is fp_reg
            then plain movsm_fp fp_reg src.element ∷ []
            else plain push reg src.element ∷ plain movsm reg rax ∷ []))
    else saved_reg unsafe_flag rbx (
        push_action set unsigned_n address.element rbx_id
        ∷ plain push reg rax
        ∷ plain movsm reg rbx
        ∷ [])

-- A whole number into memory.
unfoldable pub store_number : Bool → Token → Token → List SvasmAction
unfolding ◌is◌ text_eq
store_number unsafe_flag address src =
    if address.type is stored_addr_reg
    then (if address named codes "[rax]"
        then saved_reg unsafe_flag rbx (
            push_action set src.type src.element rbx_id
            ∷ plain push reg rbx
            ∷ plain movsm reg rax
            ∷ [])
        else saved_reg unsafe_flag rax (
            push_action set src.type src.element rax_id
            ∷ plain push reg rax
            ∷ plain movsm reg (inner address.element)
            ∷ []))
    else saved unsafe_flag (plain push reg rax ∷ plain push reg rbx ∷ [])
        (push_action set unsigned_n address.element rax_id
          ∷ push_action set src.type src.element rbx_id
          ∷ plain push reg rbx
          ∷ plain movsm reg rax
          ∷ [])
        (plain pop reg rbx ∷ plain pop reg rax ∷ [])

-- RFPR3 and RAX are pushed before and popped after.
abbrev pub saved_rfpr3_rax : Bool → List SvasmAction → List SvasmAction
saved_rfpr3_rax unsafe_flag body =
    saved unsafe_flag (plain push_fp fp_reg rfpr3 ∷ plain push reg rax ∷ []) body
      (plain pop reg rax ∷ plain pop_fp fp_reg rfpr3 ∷ [])

-- A floating-point number into memory.
unfoldable pub store_double : Bool → Token → Token → List SvasmAction
unfolding ◌is◌ text_eq
store_double unsafe_flag address src =
    if address.type is stored_addr_reg
    then (if address named codes "[rax]"
        then saved_fp unsafe_flag rfpr3
            (push_action set double_n src.element rfpr3_id ∷ plain movsm_fp fp_reg rfpr3 ∷ [])
        else saved_rfpr3_rax unsafe_flag (
            push_action mov reg (inner address.element) rax_id
            ∷ push_action set double_n src.element rfpr3_id
            ∷ plain movsm_fp fp_reg rfpr3
            ∷ []))
    else saved_rfpr3_rax unsafe_flag (
        push_action set unsigned_n address.element rax_id
        ∷ push_action set double_n src.element rfpr3_id
        ∷ plain movsm_fp fp_reg rfpr3
        ∷ [])

-- A value into memory; of other types nothing comes.
unfoldable pub mload_store : Bool → Token → Token → List SvasmAction
unfolding ◌is◌ store_register_at_register store_register_at_number store_number store_double
mload_store unsafe_flag address src =
    if is_register src
    then (if address.type is stored_addr_reg
        then store_register_at_register unsafe_flag address src
        else store_register_at_number unsafe_flag address src)
    else if src.type is unsigned_n || src.type is signed_n
    then store_number unsafe_flag address src
    else if src.type is double_n
    then store_double unsafe_flag address src
    else []

-- Memory into a register, from an address in a register.
unfoldable pub load_at_register : Bool → Token → Token → List SvasmAction
unfolding ◌is◌ text_eq
load_at_register unsafe_flag dest address =
    if dest named codes "cr"
    then plain movgm_cr reg (inner address.element) ∷ []
    else if dest.type is fp_reg
    then (if text_eq (inner address.element) rax
        then plain movgm_fp fp_reg dest.element ∷ []
        else saved_reg unsafe_flag rax (
            push_action mov reg (inner address.element) rax_id
            ∷ plain movgm_fp fp_reg dest.element
            ∷ []))
    else plain movgm reg (inner address.element) ∷ plain pop reg dest.element ∷ []

-- Memory into a register, from an immediate address.
unfoldable pub load_at_number : Bool → Token → Token → List SvasmAction
unfolding ◌is◌ text_eq
load_at_number unsafe_flag dest address =
    if not (dest named rax)
    then saved_reg unsafe_flag rax (
        push_action set unsigned_n address.element rax_id
        ∷ (if dest named codes "cr"
            then plain movgm_cr reg rax ∷ []
            else if dest.type is fp_reg
            then plain movgm_fp fp_reg dest.element ∷ []
            else plain movgm reg rax ∷ plain pop reg dest.element ∷ []))
    else saved_reg unsafe_flag rbx (
        push_action set unsigned_n address.element rbx_id
        ∷ plain movgm reg rbx
        ∷ plain pop reg rax
        ∷ [])

-- mload.
unfoldable pub preproc_mload : Bool → List Token → Svas (List SvasmAction)
unfolding ◌is◌ mload_store load_at_register load_at_number
preproc_mload unsafe_flag (dest ∷ src ∷ []) =
    if is_address dest
    then ok (mload_store unsafe_flag dest src)
    else if is_register dest && is_address src
    then ok (
        if src.type is stored_addr_reg
        then load_at_register unsafe_flag dest src
        else load_at_number unsafe_flag dest src)
    else exits argv_error
preproc_mload unsafe_flag args = exits wrong_nargs

-- sdzs.
unfoldable pub preproc_sdzs : List Token → Svas (List SvasmAction)
unfolding ◌is◌
preproc_sdzs (arg ∷ []) =
    if not (arg.type is reg) then exits argv_error else ok (plain sdzs reg arg.element ∷ [])
preproc_sdzs args = exits wrong_nargs

-- `preprocHeap`.
unfoldable pub preproc_heap : Text → Bool → List Token → Svas (List SvasmAction)
unfolding text_eq preproc_mload preproc_sdzs
preproc_heap inst unsafe_flag args =
    if text_eq inst (codes "mload")
    then preproc_mload unsafe_flag args
    else if text_eq inst (codes "sdzs")
    then preproc_sdzs args
    else ok []
