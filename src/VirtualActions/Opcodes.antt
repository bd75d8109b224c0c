-- ===== src/VirtualActions/Opcodes.antt =====
-- The tables of VirtualAssembler/instructions_set.cpp: the opcodes of distinct names and of the sets.
use virtual_processing_unit.Prelude.{◌≡◌, refl, Bool, true, false, some, ◌==◌}
use virtual_processing_unit.VirtualActions.{
  VirtualAction, int, set, mov, inc, dec, mul, div, add, sub, to_string, castreg, sdzs, push, pop,
  push_cr, pop_cr, push_fp, pop_fp, movsm, movgm, movsm_cr, movgm_cr, movsm_fp, movgm_fp, bit_not,
  bit_and, bit_or, bit_xor, shl, shr, log, log2, log10, pow, dlog, dlog2, dlog10, dpow, jmp, cmp,
  je, jne, jl, jg, jle, jge, cmpdbl, gca, cli, sti, hlt, call, lcall, ret, svcall, rscall, nopen,
  nclose, nget, nsend, nhrecv, ncrtep, nselep, rfread, rfwrite, rflen, opcode, action_of_opcode,
  contains, zero_args_opcodes, uint64_args_opcodes, reg_args_opcodes,
}

-- What follows an opcode, and the optional byte, in an executable file.
pub data ArgKind : Type 0 where
  constant_argument no_argument word_argument register_argument : ArgKind

unfoldable pub arg_kind : VirtualAction → ArgKind
arg_kind int = word_argument
arg_kind set = constant_argument
arg_kind mov = register_argument
arg_kind inc = register_argument
arg_kind dec = register_argument
arg_kind mul = register_argument
arg_kind div = register_argument
arg_kind add = register_argument
arg_kind sub = register_argument
arg_kind to_string = register_argument
arg_kind castreg = register_argument
arg_kind sdzs = register_argument
arg_kind push = register_argument
arg_kind pop = register_argument
arg_kind push_cr = no_argument
arg_kind pop_cr = no_argument
arg_kind push_fp = register_argument
arg_kind pop_fp = register_argument
arg_kind movsm = register_argument
arg_kind movgm = register_argument
arg_kind movsm_cr = register_argument
arg_kind movgm_cr = register_argument
arg_kind movsm_fp = register_argument
arg_kind movgm_fp = register_argument
arg_kind bit_not = register_argument
arg_kind bit_and = register_argument
arg_kind bit_or = register_argument
arg_kind bit_xor = register_argument
arg_kind shl = register_argument
arg_kind shr = register_argument
arg_kind log = register_argument
arg_kind log2 = register_argument
arg_kind log10 = register_argument
arg_kind pow = register_argument
arg_kind dlog = register_argument
arg_kind dlog2 = register_argument
arg_kind dlog10 = register_argument
arg_kind dpow = register_argument
arg_kind jmp = word_argument
arg_kind cmp = no_argument
arg_kind je = word_argument
arg_kind jne = word_argument
arg_kind jl = word_argument
arg_kind jg = word_argument
arg_kind jle = word_argument
arg_kind jge = word_argument
arg_kind cmpdbl = no_argument
arg_kind gca = no_argument
arg_kind cli = no_argument
arg_kind sti = no_argument
arg_kind hlt = no_argument
arg_kind call = word_argument
arg_kind lcall = word_argument
arg_kind ret = no_argument
arg_kind svcall = no_argument
arg_kind rscall = no_argument
arg_kind nopen = word_argument
arg_kind nclose = word_argument
arg_kind nget = word_argument
arg_kind nsend = word_argument
arg_kind nhrecv = word_argument
arg_kind ncrtep = word_argument
arg_kind nselep = word_argument
arg_kind rfread = word_argument
arg_kind rfwrite = word_argument
arg_kind rflen = no_argument

abbrev pub is_constant : ArgKind → Bool
is_constant constant_argument = true
is_constant _ = false

abbrev pub is_no : ArgKind → Bool
is_no no_argument = true
is_no _ = false

abbrev pub is_word : ArgKind → Bool
is_word word_argument = true
is_word _ = false

abbrev pub is_register : ArgKind → Bool
is_register register_argument = true
is_register _ = false

-- Looking an opcode up gives the action that it encodes: no two actions share one.
pub action_of_opcode-opcode : (a : VirtualAction) → action_of_opcode (opcode a) ≡ some a
unfolding action_of_opcode
action_of_opcode-opcode int = refl
action_of_opcode-opcode set = refl
action_of_opcode-opcode mov = refl
action_of_opcode-opcode inc = refl
action_of_opcode-opcode dec = refl
action_of_opcode-opcode mul = refl
action_of_opcode-opcode div = refl
action_of_opcode-opcode add = refl
action_of_opcode-opcode sub = refl
action_of_opcode-opcode to_string = refl
action_of_opcode-opcode castreg = refl
action_of_opcode-opcode sdzs = refl
action_of_opcode-opcode push = refl
action_of_opcode-opcode pop = refl
action_of_opcode-opcode push_cr = refl
action_of_opcode-opcode pop_cr = refl
action_of_opcode-opcode push_fp = refl
action_of_opcode-opcode pop_fp = refl
action_of_opcode-opcode movsm = refl
action_of_opcode-opcode movgm = refl
action_of_opcode-opcode movsm_cr = refl
action_of_opcode-opcode movgm_cr = refl
action_of_opcode-opcode movsm_fp = refl
action_of_opcode-opcode movgm_fp = refl
action_of_opcode-opcode bit_not = refl
action_of_opcode-opcode bit_and = refl
action_of_opcode-opcode bit_or = refl
action_of_opcode-opcode bit_xor = refl
action_of_opcode-opcode shl = refl
action_of_opcode-opcode shr = refl
action_of_opcode-opcode log = refl
action_of_opcode-opcode log2 = refl
action_of_opcode-opcode log10 = refl
action_of_opcode-opcode pow = refl
action_of_opcode-opcode dlog = refl
action_of_opcode-opcode dlog2 = refl
action_of_opcode-opcode dlog10 = refl
action_of_opcode-opcode dpow = refl
action_of_opcode-opcode jmp = refl
action_of_opcode-opcode cmp = refl
action_of_opcode-opcode je = refl
action_of_opcode-opcode jne = refl
action_of_opcode-opcode jl = refl
action_of_opcode-opcode jg = refl
action_of_opcode-opcode jle = refl
action_of_opcode-opcode jge = refl
action_of_opcode-opcode cmpdbl = refl
action_of_opcode-opcode gca = refl
action_of_opcode-opcode cli = refl
action_of_opcode-opcode sti = refl
action_of_opcode-opcode hlt = refl
action_of_opcode-opcode call = refl
action_of_opcode-opcode lcall = refl
action_of_opcode-opcode ret = refl
action_of_opcode-opcode svcall = refl
action_of_opcode-opcode rscall = refl
action_of_opcode-opcode nopen = refl
action_of_opcode-opcode nclose = refl
action_of_opcode-opcode nget = refl
action_of_opcode-opcode nsend = refl
action_of_opcode-opcode nhrecv = refl
action_of_opcode-opcode ncrtep = refl
action_of_opcode-opcode nselep = refl
action_of_opcode-opcode rfread = refl
action_of_opcode-opcode rfwrite = refl
action_of_opcode-opcode rflen = refl

-- Every opcode but that of `set` lies in exactly one of the three sets that say what its argument
-- is, and that of `set` in none.
pub arg_kind_lem :
    (a : VirtualAction)
    → ((opcode a == opcode set) ≡ is_constant (arg_kind a))
      × (contains zero_args_opcodes (opcode a) ≡ is_no (arg_kind a))
      × (contains uint64_args_opcodes (opcode a) ≡ is_word (arg_kind a))
      × (contains reg_args_opcodes (opcode a) ≡ is_register (arg_kind a))
unfolding arg_kind zero_args_opcodes uint64_args_opcodes reg_args_opcodes
arg_kind_lem int = (refl, refl, refl, refl)
arg_kind_lem set = (refl, refl, refl, refl)
arg_kind_lem mov = (refl, refl, refl, refl)
arg_kind_lem inc = (refl, refl, refl, refl)
arg_kind_lem dec = (refl, refl, refl, refl)
arg_kind_lem mul = (refl, refl, refl, refl)
arg_kind_lem div = (refl, refl, refl, refl)
arg_kind_lem add = (refl, refl, refl, refl)
arg_kind_lem sub = (refl, refl, refl, refl)
arg_kind_lem to_string = (refl, refl, refl, refl)
arg_kind_lem castreg = (refl, refl, refl, refl)
arg_kind_lem sdzs = (refl, refl, refl, refl)
arg_kind_lem push = (refl, refl, refl, refl)
arg_kind_lem pop = (refl, refl, refl, refl)
arg_kind_lem push_cr = (refl, refl, refl, refl)
arg_kind_lem pop_cr = (refl, refl, refl, refl)
arg_kind_lem push_fp = (refl, refl, refl, refl)
arg_kind_lem pop_fp = (refl, refl, refl, refl)
arg_kind_lem movsm = (refl, refl, refl, refl)
arg_kind_lem movgm = (refl, refl, refl, refl)
arg_kind_lem movsm_cr = (refl, refl, refl, refl)
arg_kind_lem movgm_cr = (refl, refl, refl, refl)
arg_kind_lem movsm_fp = (refl, refl, refl, refl)
arg_kind_lem movgm_fp = (refl, refl, refl, refl)
arg_kind_lem bit_not = (refl, refl, refl, refl)
arg_kind_lem bit_and = (refl, refl, refl, refl)
arg_kind_lem bit_or = (refl, refl, refl, refl)
arg_kind_lem bit_xor = (refl, refl, refl, refl)
arg_kind_lem shl = (refl, refl, refl, refl)
arg_kind_lem shr = (refl, refl, refl, refl)
arg_kind_lem log = (refl, refl, refl, refl)
arg_kind_lem log2 = (refl, refl, refl, refl)
arg_kind_lem log10 = (refl, refl, refl, refl)
arg_kind_lem pow = (refl, refl, refl, refl)
arg_kind_lem dlog = (refl, refl, refl, refl)
arg_kind_lem dlog2 = (refl, refl, refl, refl)
arg_kind_lem dlog10 = (refl, refl, refl, refl)
arg_kind_lem dpow = (refl, refl, refl, refl)
arg_kind_lem jmp = (refl, refl, refl, refl)
arg_kind_lem cmp = (refl, refl, refl, refl)
arg_kind_lem je = (refl, refl, refl, refl)
arg_kind_lem jne = (refl, refl, refl, refl)
arg_kind_lem jl = (refl, refl, refl, refl)
arg_kind_lem jg = (refl, refl, refl, refl)
arg_kind_lem jle = (refl, refl, refl, refl)
arg_kind_lem jge = (refl, refl, refl, refl)
arg_kind_lem cmpdbl = (refl, refl, refl, refl)
arg_kind_lem gca = (refl, refl, refl, refl)
arg_kind_lem cli = (refl, refl, refl, refl)
arg_kind_lem sti = (refl, refl, refl, refl)
arg_kind_lem hlt = (refl, refl, refl, refl)
arg_kind_lem call = (refl, refl, refl, refl)
arg_kind_lem lcall = (refl, refl, refl, refl)
arg_kind_lem ret = (refl, refl, refl, refl)
arg_kind_lem svcall = (refl, refl, refl, refl)
arg_kind_lem rscall = (refl, refl, refl, refl)
arg_kind_lem nopen = (refl, refl, refl, refl)
arg_kind_lem nclose = (refl, refl, refl, refl)
arg_kind_lem nget = (refl, refl, refl, refl)
arg_kind_lem nsend = (refl, refl, refl, refl)
arg_kind_lem nhrecv = (refl, refl, refl, refl)
arg_kind_lem ncrtep = (refl, refl, refl, refl)
arg_kind_lem nselep = (refl, refl, refl, refl)
arg_kind_lem rfread = (refl, refl, refl, refl)
arg_kind_lem rfwrite = (refl, refl, refl, refl)
arg_kind_lem rflen = (refl, refl, refl, refl)
