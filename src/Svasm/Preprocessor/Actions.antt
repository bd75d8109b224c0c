-- ===== src/Svasm/Preprocessor/Actions.antt =====
-- SVASM/Assembler/compiler.cpp: `pushAction` and the helpers beside it, and the instructions int,
-- mov, str, inc and dec. An instruction gives the actions that it appends to `out_actions`.
use virtual_processing_unit.Prelude.{ℕ, Bool, not, ◌||◌, List, [], ◌∷◌, ◌++◌, if◌then◌else◌}
use virtual_processing_unit.Text.{Text, codes, text_eq, lookup}
use virtual_processing_unit.VirtualActions.{
  VirtualAction, int, set, mov, inc, dec, push, pop, push_fp, pop_fp, movsm, movgm, movsm_cr, jmp,
  lcall, to_string,
}
use virtual_processing_unit.Svasm.{
  TokenType, unsigned_n, reg, fp_reg, label, ◌is◌, Token, Svas, ok, exits, ◌>>=◌, from_option,
  wrong_nargs, argv_error, exception, SvasmAction, strreg_to_reg,
}

-- The names and the values of `comn_registers` of the registers that the source mentions.
abbrev pub rax : Text
rax = codes "rax"

abbrev pub rbx : Text
rbx = codes "rbx"

abbrev pub rdx : Text
rdx = codes "rdx"

abbrev pub rdi : Text
rdi = codes "rdi"

abbrev pub rsi : Text
rsi = codes "rsi"

abbrev pub rfpr2 : Text
rfpr2 = codes "rfpr2"

abbrev pub rfpr3 : Text
rfpr3 = codes "rfpr3"

abbrev pub rax_id : ℕ
rax_id = 0x11

abbrev pub rbx_id : ℕ
rbx_id = 0x12

abbrev pub rdx_id : ℕ
rdx_id = 0x14

abbrev pub rsp_id : ℕ
rsp_id = 0x16

abbrev pub rdi_id : ℕ
rdi_id = 0x17

abbrev pub rsi_id : ℕ
rsi_id = 0x18

abbrev pub rfpr2_id : ℕ
rfpr2_id = 0x24

abbrev pub rfpr3_id : ℕ
rfpr3_id = 0x25

-- What `pushAction` appends.
abbrev pub push_action : VirtualAction → TokenType → Text → ℕ → SvasmAction
push_action vaction var_type var_raw opt_arg = record {
  action = vaction;
  var_type = var_type;
  var_raw = var_raw;
  opt_arg = opt_arg;
}

-- Without the optional argument.
abbrev pub plain : VirtualAction → TokenType → Text → SvasmAction
plain vaction var_type var_raw = push_action vaction var_type var_raw 0

-- Actions around others, unless the code is unsafe.
abbrev pub saved : Bool → List SvasmAction → List SvasmAction → List SvasmAction → List SvasmAction
saved unsafe_flag save body restore = if unsafe_flag then body else save ++ (body ++ restore)

-- A register that is pushed before and popped after.
abbrev pub saved_reg : Bool → Text → List SvasmAction → List SvasmAction
saved_reg unsafe_flag name body =
    saved unsafe_flag (plain push reg name ∷ []) body (plain pop reg name ∷ [])

abbrev pub saved_fp : Bool → Text → List SvasmAction → List SvasmAction
saved_fp unsafe_flag name body =
    saved unsafe_flag (plain push_fp fp_reg name ∷ []) body (plain pop_fp fp_reg name ∷ [])

infix 50 ◌named◌
abbrev pub ◌named◌ : Token → Text → Bool
t named name = text_eq t.element name

-- `reg|fp_reg`
abbrev pub is_register : Token → Bool
is_register t = t.type is reg || t.type is fp_reg

-- `strreg_to_reg.at`
abbrev pub register_at : Text → Svas ℕ
register_at name = from_option exception (lookup strreg_to_reg name)

-- `preprocJmpCmpCalls`.
unfoldable pub preproc_jmp_cmp_calls : VirtualAction → Token → List SvasmAction
unfolding ◌is◌
preproc_jmp_cmp_calls vaction arg =
    if not (arg.type is label)
    then plain vaction arg.type arg.element ∷ []
    else plain vaction unsigned_n (codes "1")
      ∷ plain jmp unsigned_n (codes "1")
      ∷ plain lcall label arg.element
      ∷ []

-- `CRToNum`, by way of a register.
abbrev pub cr_to_num_by : Text → ℕ → List SvasmAction
cr_to_num_by name id =
    push_action set unsigned_n (codes "0") id
    ∷ plain push reg name
    ∷ plain movsm reg name
    ∷ push_action set unsigned_n (codes "7") id
    ∷ plain movsm_cr reg name
    ∷ push_action set unsigned_n (codes "0") id
    ∷ plain movgm reg name
    ∷ []

unfoldable pub cr_to_num : Bool → List SvasmAction
cr_to_num use_rax = if use_rax then cr_to_num_by rax rax_id else cr_to_num_by rbx rbx_id

-- `SVOPTTOTQ`.
unfoldable pub svopt_to_tq : Text → ℕ
unfolding text_eq
svopt_to_tq svopt =
    if text_eq svopt (codes "QWORD") || text_eq svopt (codes "qword")
    then 4
    else if text_eq svopt (codes "DWORD") || text_eq svopt (codes "dword")
    then 3
    else if text_eq svopt (codes "WORD") || text_eq svopt (codes "word")
    then 2
    else if text_eq svopt (codes "BYTE") || text_eq svopt (codes "byte")
    then 1
    else 0

-- `SVOPTTOTS`.
unfoldable pub svopt_to_ts : Text → ℕ
unfolding text_eq
svopt_to_ts svopt =
    if text_eq svopt (codes "QWORD") || text_eq svopt (codes "qword")
    then 8
    else if text_eq svopt (codes "DWORD") || text_eq svopt (codes "dword")
    then 4
    else if text_eq svopt (codes "WORD") || text_eq svopt (codes "word")
    then 2
    else if text_eq svopt (codes "BYTE") || text_eq svopt (codes "byte")
    then 4
    else 8

-- `preprocInt`.
unfoldable pub preproc_int : List Token → Svas (List SvasmAction)
unfolding ◌is◌
preproc_int (arg ∷ []) =
    if not (arg.type is unsigned_n)
    then exits argv_error
    else ok (plain int unsigned_n arg.element ∷ [])
preproc_int args = exits wrong_nargs

-- A move to a register of one kind, from a register of the same kind or a value.
unfoldable pub mov_to : TokenType → Token → Token → Svas (List SvasmAction)
unfolding ◌is◌ lookup
mov_to kind dest src = do
  id ← register_at dest.element
  ok (
      (if not (src.type is kind)
        then push_action set src.type src.element id
        else push_action mov kind src.element id)
      ∷ [])

-- `preprocMov`.
unfoldable pub preproc_mov : List Token → Svas (List SvasmAction)
unfolding mov_to ◌is◌
preproc_mov (dest ∷ src ∷ []) =
    if dest.type is reg
    then mov_to reg dest src
    else if dest.type is fp_reg
    then mov_to fp_reg dest src
    else exits argv_error
preproc_mov args = exits wrong_nargs

-- `preprocStr`.
unfoldable pub preproc_str : List Token → Svas (List SvasmAction)
unfolding ◌is◌ text_eq
preproc_str (arg ∷ []) =
    if not (is_register arg)
    then exits argv_error
    else if arg named codes "cr"
    then ok (plain int unsigned_n (codes "8") ∷ [])
    else if arg.type is fp_reg
    then ok (plain push_fp fp_reg arg.element ∷ plain int unsigned_n (codes "10") ∷ [])
    else ok (plain to_string reg arg.element ∷ [])
preproc_str args = exits wrong_nargs

-- `preprocInc` and `preprocDec`, which differ in their action.
unfoldable pub preproc_step : VirtualAction → List Token → Svas (List SvasmAction)
unfolding ◌is◌ text_eq
preproc_step vaction (arg ∷ []) =
    if not (is_register arg)
    then exits argv_error
    else if arg named codes "cr"
    then exits argv_error
    else if arg.type is fp_reg
    then ok (plain vaction fp_reg arg.element ∷ [])
    else ok (plain vaction reg arg.element ∷ [])
preproc_step vaction args = exits wrong_nargs

unfoldable pub preproc_inc : List Token → Svas (List SvasmAction)
unfolding preproc_step
preproc_inc = preproc_step inc

unfoldable pub preproc_dec : List Token → Svas (List SvasmAction)
unfolding preproc_step
preproc_dec = preproc_step dec
