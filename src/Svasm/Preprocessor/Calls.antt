-- ===== src/Svasm/Preprocessor/Calls.antt =====
-- SVASM/Assembler/compiler.cpp: call, jmp and ret (`preprocCalls`), the conditional jumps
-- (`preprocCmpCalls`) and the network instructions (`preprocNetwork`).
use virtual_processing_unit.Prelude.{Bool, true, not, ◌&&◌, ◌||◌, List, [], ◌∷◌, if◌then◌else◌}
use virtual_processing_unit.Text.{Text, codes, text_eq}
use virtual_processing_unit.VirtualActions.{
  VirtualAction, set, push, pop, call, ret, svcall, rscall, jmp, lcall, je, jne, jl, jg, jle, jge,
  nopen, nclose, nget, nsend, nhrecv, ncrtep, nselep,
}
use virtual_processing_unit.Svasm.{
  unsigned_n, signed_n, reg, label, ◌is◌, Token, Svas, ok, exits, wrong_nargs, argv_error,
  SvasmAction,
}
use virtual_processing_unit.Svasm.Preprocessor.Actions.{
  rdx, rdi, rsi, rdx_id, rdi_id, rsi_id, push_action, plain, saved, saved_reg,
  preproc_jmp_cmp_calls,
}

-- `label|unsigned_n|signed_n`
abbrev pub is_target : Token → Bool
is_target t = t.type is label || (t.type is unsigned_n || t.type is signed_n)

-- call and jmp with their argument.
unfoldable pub preproc_call : Text → Token → Svas (List SvasmAction)
unfolding ◌is◌ text_eq
preproc_call inst arg =
    if not (is_target arg)
    then exits argv_error
    else if text_eq inst (codes "call")
    then (if arg.type is label
        then ok (plain svcall reg [] ∷ plain call label arg.element ∷ plain rscall reg [] ∷ [])
        else if arg.type is unsigned_n
        then ok (plain svcall reg [] ∷ plain call unsigned_n arg.element ∷ plain rscall reg [] ∷ [])
        else exits argv_error)
    else if text_eq inst (codes "jmp")
    then ok (
        (if arg.type is label
          then plain lcall label arg.element
          else plain jmp arg.type arg.element)
        ∷ [])
    else ok []

-- `preprocCalls`.
unfoldable pub preproc_calls : Text → List Token → Svas (List SvasmAction)
unfolding text_eq preproc_call
preproc_calls inst [] =
    if text_eq inst (codes "ret") then ok (plain ret reg [] ∷ []) else exits wrong_nargs
preproc_calls inst (arg ∷ []) = preproc_call inst arg
preproc_calls inst args = exits wrong_nargs

-- The instruction's name, or nothing if it is none of them.
unfoldable pub preproc_jump : Text → Token → List SvasmAction
unfolding text_eq preproc_jmp_cmp_calls
preproc_jump inst arg =
    if text_eq inst (codes "je")
    then preproc_jmp_cmp_calls je arg
    else if text_eq inst (codes "jne")
    then preproc_jmp_cmp_calls jne arg
    else if text_eq inst (codes "jl")
    then preproc_jmp_cmp_calls jl arg
    else if text_eq inst (codes "jle")
    then preproc_jmp_cmp_calls jle arg
    else if text_eq inst (codes "jg")
    then preproc_jmp_cmp_calls jg arg
    else if text_eq inst (codes "jge")
    then preproc_jmp_cmp_calls jge arg
    else []

-- `preprocCmpCalls`.
unfoldable pub preproc_cmp_calls : Text → List Token → Svas (List SvasmAction)
unfolding ◌is◌ preproc_jump
preproc_cmp_calls inst (arg ∷ []) =
    if not (is_target arg) then exits argv_error else ok (preproc_jump inst arg)
preproc_cmp_calls inst args = exits wrong_nargs

abbrev pub all_unsigned : List Token → Bool
all_unsigned [] = true
all_unsigned (t ∷ rest) = t.type is unsigned_n && all_unsigned rest

-- nopn and ncep.
unfoldable pub preproc_open : Text → Bool → List Token → Svas (List SvasmAction)
unfolding text_eq
preproc_open inst unsafe_flag (a ∷ b ∷ c ∷ d ∷ []) = ok (
    saved unsafe_flag (plain push reg rdx ∷ plain push reg rsi ∷ plain push reg rdi ∷ [])
      (push_action set unsigned_n b.element rdi_id
        ∷ push_action set unsigned_n c.element rsi_id
        ∷ push_action set unsigned_n d.element rdx_id
        ∷ plain (if text_eq inst (codes "nopn") then nopen else ncrtep) unsigned_n a.element
        ∷ [])
      (plain pop reg rdi ∷ plain pop reg rsi ∷ plain pop reg rdx ∷ []))
preproc_open inst unsafe_flag args = exits wrong_nargs

-- ncls and nrcv.
unfoldable pub preproc_connection : VirtualAction → List Token → Svas (List SvasmAction)
preproc_connection vaction (arg ∷ []) = ok (plain vaction unsigned_n arg.element ∷ [])
preproc_connection vaction args = exits wrong_nargs

-- nsnd, nget and nsep.
unfoldable pub preproc_transfer : VirtualAction → Bool → List Token → Svas (List SvasmAction)
preproc_transfer vaction unsafe_flag (a ∷ b ∷ []) = ok (
    saved_reg unsafe_flag rdi
      (push_action set unsigned_n b.element rdi_id ∷ plain vaction unsigned_n a.element ∷ []))
preproc_transfer vaction unsafe_flag args = exits wrong_nargs

-- `preprocNetwork`.
unfoldable pub preproc_network : Text → Bool → List Token → Svas (List SvasmAction)
unfolding ◌is◌ text_eq preproc_open preproc_connection preproc_transfer
preproc_network inst unsafe_flag args =
    if not (all_unsigned args)
    then exits argv_error
    else if text_eq inst (codes "nopn") || text_eq inst (codes "ncep")
    then preproc_open inst unsafe_flag args
    else if text_eq inst (codes "ncls")
    then preproc_connection nclose args
    else if text_eq inst (codes "nsnd")
    then preproc_transfer nsend unsafe_flag args
    else if text_eq inst (codes "nget")
    then preproc_transfer nget unsafe_flag args
    else if text_eq inst (codes "nsep")
    then preproc_transfer nselep unsafe_flag args
    else if text_eq inst (codes "nrcv")
    then preproc_connection nhrecv args
    else ok []
