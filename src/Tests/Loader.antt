-- ===== src/Tests/Loader.antt =====
-- Assembling and loading a concrete program.
use virtual_processing_unit.Prelude.{
  ℕ, ◌<◌, ◌^◌, ◌≡◌, refl, arith, none, some, Option, List, [], ◌∷◌, All, map, inl,
}
use virtual_processing_unit.VirtualActions.{
  set, push, hlt, jmp, opcode, zero_args_opcodes, uint64_args_opcodes, reg_args_opcodes,
  opt_arg_ops,
}
use virtual_processing_unit.VirtualActions.Opcodes.{arg_kind}
use virtual_processing_unit.Text.{Text, codes, stoull, lookup}
use virtual_processing_unit.Svasm.{SvasmAction, unsigned_n, reg, error_type, ok}
use virtual_processing_unit.Memory.{Memory}
use virtual_processing_unit.Svasm.Compile.{
  compile_all, compile_each, compile_inst, compile_argument, compile_constant, compile_number,
  compile_register, requested,
}
use virtual_processing_unit.Bytes.{ulltoa, compba}
use virtual_processing_unit.Registers.{is_num_reg}
use virtual_processing_unit.Loader.{Action, decode_file, decode_byte_array}
use virtual_processing_unit.Loader.RoundTrip.{HasTarget}
use virtual_processing_unit.Loader.Program.{load_all}
use virtual_processing_unit.Loader.Executable.{link, decode-link-compile_all}
use virtual_processing_unit.Tests.Memory.{some_memory, some_memory-IsZone}

-- `mov rax, 65535`, as `set`, then `push rax`, `jmp 3` and `hlt`.
abbrev program : List SvasmAction
program =
    record { action = set; var_type = unsigned_n; var_raw = codes "65535"; opt_arg = 0x11 }
    ∷ record { action = push; var_type = reg; var_raw = codes "rax"; opt_arg = 0 }
    ∷ record { action = jmp; var_type = unsigned_n; var_raw = codes "3"; opt_arg = 0 }
    ∷ record { action = hlt; var_type = error_type; var_raw = []; opt_arg = 0 }
    ∷ []

abbrev no_bytes : Text → Option (List ℕ)
no_bytes raw = none

abbrev output : List ℕ
output =
    0 ∷ 0 ∷ 0 ∷ 0 ∷ 0 ∷ 0x10 ∷ 0 ∷ 0 ∷ 0x01 ∷ 0x11 ∷ 6 ∷ 0xff ∷ 0xff ∷ 0x67 ∷ 0 ∷ 0x11 ∷ 0x79 ∷ 7
    ∷ 3 ∷ 0x83 ∷ []

compiled : compile_all no_bytes none program ≡ ok output
unfolding compile_all compile_each compile_inst compile_argument opcode compile_constant is_num_reg
    compile_number stoull zero_args_opcodes uint64_args_opcodes reg_args_opcodes compile_register
    lookup ulltoa requested opt_arg_ops compba
compiled = refl

targets : All HasTarget program
unfolding HasTarget arg_kind is_num_reg
targets = (λ e. inl refl, (λ e. inl refl, (λ e. inl refl, (λ e. inl refl, tt))))

small : requested none < 2 ^ 64
unfolding requested
small = omega arith

decode-link-compile_all_example :
    (code : List ℕ) × (loaded : List Action) × (m' : Memory) × (decode_file (link output)
      ≡ some (requested none, code))
    × (decode_byte_array (λ a. 0xcd) code some_memory ≡ some (loaded, m'))
    × (load_all no_bytes (λ a. 0xcd) program some_memory ≡ some (loaded, m'))
    × (map (λ a. a.act) loaded ≡ set ∷ push ∷ jmp ∷ hlt ∷ [])
    × (m'.memlen ≡ 300)
decode-link-compile_all_example =
    decode-link-compile_all no_bytes (λ a. 0xcd) (λ raw bs e. cc) none program output some_memory
      targets small (omega arith) some_memory-IsZone (omega arith) compiled
