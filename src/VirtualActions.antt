-- ===== src/VirtualActions.antt =====
-- `virtual_actions` of Actions/actions_symbols.h and the instruction set of
-- VirtualAssembler/instructions_set.cpp.
pub mod Opcodes
use virtual_processing_unit.Prelude.{
  ℕ, Bool, true, false, Option, none, some, List, [], ◌∷◌, ◌==◌, if◌then◌else◌,
}

pub data VirtualAction : Type 0 where
  int set mov inc dec mul div add : VirtualAction
  sub to_string castreg sdzs push pop push_cr pop_cr : VirtualAction
  push_fp pop_fp movsm movgm movsm_cr movgm_cr movsm_fp movgm_fp : VirtualAction
  bit_not bit_and bit_or bit_xor shl shr log log2 : VirtualAction
  log10 pow dlog dlog2 dlog10 dpow jmp cmp : VirtualAction
  je jne jl jg jle jge cmpdbl gca : VirtualAction
  cli sti hlt call lcall ret svcall rscall : VirtualAction
  nopen nclose nget nsend nhrecv ncrtep nselep rfread : VirtualAction
  rfwrite rflen : VirtualAction

-- `instructions_set`.
unfoldable pub opcode : VirtualAction → ℕ
opcode int = 0x00
opcode set = 0x01
opcode mov = 0x02
opcode inc = 0x03
opcode dec = 0x04
opcode mul = 0x2f
opcode div = 0x30
opcode add = 0x31
opcode sub = 0x32
opcode to_string = 0x65
opcode castreg = 0x66
opcode sdzs = 0x9f
opcode push = 0x67
opcode pop = 0x68
opcode push_cr = 0x6b
opcode pop_cr = 0x6c
opcode push_fp = 0xa2
opcode pop_fp = 0xa3
opcode movsm = 0x8d
opcode movgm = 0x8e
opcode movsm_cr = 0x91
opcode movgm_cr = 0x92
opcode movsm_fp = 0xa4
opcode movgm_fp = 0xa5
opcode bit_not = 0x6f
opcode bit_and = 0x70
opcode bit_or = 0x71
opcode bit_xor = 0x72
opcode shl = 0x73
opcode shr = 0x74
opcode log = 0x75
opcode log2 = 0x76
opcode log10 = 0x77
opcode pow = 0x78
opcode dlog = 0x89
opcode dlog2 = 0x8a
opcode dlog10 = 0x8b
opcode dpow = 0x8c
opcode jmp = 0x79
opcode cmp = 0x7a
opcode je = 0x7b
opcode jne = 0x7c
opcode jl = 0x7d
opcode jg = 0x7e
opcode jle = 0x7f
opcode jge = 0x80
opcode cmpdbl = 0xa6
opcode gca = 0x82
opcode cli = 0xa0
opcode sti = 0xa1
opcode hlt = 0x83
opcode call = 0x84
opcode lcall = 0x85
opcode ret = 0x86
opcode svcall = 0x87
opcode rscall = 0x88
opcode nopen = 0x95
opcode nclose = 0x96
opcode nget = 0x97
opcode nsend = 0x98
opcode nhrecv = 0x99
opcode ncrtep = 0x9a
opcode nselep = 0x9b
opcode rfread = 0xa7
opcode rfwrite = 0xa8
opcode rflen = 0xa9

-- The actions in the order of the enumeration, in which the map is searched.
abbrev pub virtual_actions : List VirtualAction
virtual_actions =
    int ∷ set ∷ mov ∷ inc ∷ dec ∷ mul ∷ div ∷ add ∷ sub ∷ to_string ∷ castreg ∷ sdzs ∷ push ∷ pop
    ∷ push_cr ∷ pop_cr ∷ push_fp ∷ pop_fp ∷ movsm ∷ movgm ∷ movsm_cr ∷ movgm_cr ∷ movsm_fp
    ∷ movgm_fp ∷ bit_not ∷ bit_and ∷ bit_or ∷ bit_xor ∷ shl ∷ shr ∷ log ∷ log2 ∷ log10 ∷ pow ∷ dlog
    ∷ dlog2 ∷ dlog10 ∷ dpow ∷ jmp ∷ cmp ∷ je ∷ jne ∷ jl ∷ jg ∷ jle ∷ jge ∷ cmpdbl ∷ gca ∷ cli ∷ sti
    ∷ hlt ∷ call ∷ lcall ∷ ret ∷ svcall ∷ rscall ∷ nopen ∷ nclose ∷ nget ∷ nsend ∷ nhrecv ∷ ncrtep
    ∷ nselep ∷ rfread ∷ rfwrite ∷ rflen ∷ []

abbrev pub find_action : List VirtualAction → ℕ → Option VirtualAction
find_action [] code = none
find_action (a ∷ rest) code =
    let found = find_action rest code in if opcode a == code then some a else found

-- `findKeyByValue(instructions_set, code)`. For a value that is not found the source returns the
-- enumeration's value 0, which names no action: `none`.
unfoldable pub action_of_opcode : ℕ → Option VirtualAction
unfolding opcode
action_of_opcode code = find_action virtual_actions code

abbrev pub contains : List ℕ → ℕ → Bool
contains [] code = false
contains (c ∷ rest) code = let found = contains rest code in if c == code then true else found

unfoldable pub zero_args_opcodes : List ℕ
unfolding opcode
zero_args_opcodes =
    opcode push_cr
    ∷ opcode pop_cr
    ∷ opcode cmp
    ∷ opcode cmpdbl
    ∷ opcode gca
    ∷ opcode cli
    ∷ opcode sti
    ∷ opcode hlt
    ∷ opcode ret
    ∷ opcode svcall
    ∷ opcode rscall
    ∷ opcode rflen
    ∷ []

unfoldable pub uint64_args_opcodes : List ℕ
unfolding opcode
uint64_args_opcodes =
    opcode int
    ∷ opcode jmp
    ∷ opcode je
    ∷ opcode jne
    ∷ opcode jl
    ∷ opcode jg
    ∷ opcode jle
    ∷ opcode jge
    ∷ opcode call
    ∷ opcode lcall
    ∷ opcode nopen
    ∷ opcode nclose
    ∷ opcode nget
    ∷ opcode nsend
    ∷ opcode nhrecv
    ∷ opcode ncrtep
    ∷ opcode nselep
    ∷ opcode rfread
    ∷ opcode rfwrite
    ∷ []

unfoldable pub reg_args_opcodes : List ℕ
unfolding opcode
reg_args_opcodes =
    opcode mov
    ∷ opcode inc
    ∷ opcode dec
    ∷ opcode mul
    ∷ opcode div
    ∷ opcode add
    ∷ opcode sub
    ∷ opcode sdzs
    ∷ opcode push
    ∷ opcode pop
    ∷ opcode push_fp
    ∷ opcode pop_fp
    ∷ opcode movsm
    ∷ opcode movgm
    ∷ opcode movsm_cr
    ∷ opcode movgm_cr
    ∷ opcode movsm_fp
    ∷ opcode movgm_fp
    ∷ opcode to_string
    ∷ opcode castreg
    ∷ opcode bit_not
    ∷ opcode bit_and
    ∷ opcode bit_or
    ∷ opcode bit_xor
    ∷ opcode shl
    ∷ opcode shr
    ∷ opcode log
    ∷ opcode log2
    ∷ opcode log10
    ∷ opcode pow
    ∷ opcode dlog
    ∷ opcode dlog2
    ∷ opcode dlog10
    ∷ opcode dpow
    ∷ []

unfoldable pub opt_arg_ops : List ℕ
unfolding opcode
opt_arg_ops =
    opcode push
    ∷ opcode pop
    ∷ opcode movsm
    ∷ opcode movgm
    ∷ opcode set
    ∷ opcode mov
    ∷ opcode mul
    ∷ opcode div
    ∷ opcode add
    ∷ opcode sub
    ∷ []
