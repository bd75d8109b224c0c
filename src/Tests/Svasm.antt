-- ===== src/Tests/Svasm.antt =====
-- The assembler on concrete sources.
use virtual_processing_unit.Prelude.{
  ℕ, ◌+◌, ◌%◌, ◌^◌, ◌≡◌, ◌⊎◌, refl, arith, true, false, Option, none, some, List, [], ◌∷◌, ◌++◌,
  map, All,
}
use virtual_processing_unit.Bytes.{ulltoa, compba}
use virtual_processing_unit.Registers.{is_num_reg}
use virtual_processing_unit.VirtualActions.{
  set, add, push, pop, lcall, ret, opcode, zero_args_opcodes, uint64_args_opcodes, reg_args_opcodes,
  opt_arg_ops,
}
use virtual_processing_unit.Memory.{Memory}
use virtual_processing_unit.Text.{
  Text, codes, to_string, stoull, stoull_hex, lookup, member, all_chars, is_digit,
}
use virtual_processing_unit.Svasm.{
  SvasmAction, wrong_nargs, argv_error, unsigned_n, reg, label, stored_addr_reg, ◌is◌, ok, exits,
  Token,
}
use virtual_processing_unit.Svasm.Compile.{
  compile_all, compile_each, compile_inst, compile_argument, compile_constant, compile_number,
  compile_register, requested,
}
use virtual_processing_unit.Svasm.Parser.{codeline, parse_line, fetch_lines, is_skipped}
use virtual_processing_unit.Svasm.Parser.Lines.{fetch_lines-join_lines}
use virtual_processing_unit.Svasm.Parser.RoundTrip.{parse_line-print_codeline}
use virtual_processing_unit.Svasm.Tokenizer.{token, Tokenized, tokenized, tokenize_arguments}
use virtual_processing_unit.Svasm.Tokenizer.Types.{IsToken, tokenize_arguments-IsToken}
use virtual_processing_unit.Svasm.Tokenizer.Numbers.{compile_number-to_string}
use virtual_processing_unit.Svasm.Preprocessor.Emits.{IsPartOf}
use virtual_processing_unit.Svasm.Preprocessor.Emits.Instructions.{
  preproc_instruction-errors, preproc_instruction-unsafe,
}
use virtual_processing_unit.Svasm.Preprocessor.Labels.{
  labeldef, with_label, preproc_tokenized-label,
}
use virtual_processing_unit.Svasm.Preprocessor.Rejected.{compile_each-push_constant}
use virtual_processing_unit.Svasm.Preprocessor.Stack.{push_constant}
use virtual_processing_unit.Svasm.Preprocessor.{
  Preproc, start_preproc, preproc_instruction, preproc_all, preproc_tokenized, preproc_inst,
  resolve, label_value,
}
use virtual_processing_unit.Svasm.Preprocessor.Actions.{push_action, plain, preproc_mov}
use virtual_processing_unit.Svasm.Preprocessor.Maths.{preproc_math}
use virtual_processing_unit.Svasm.Preprocessor.Calls.{preproc_calls}
use virtual_processing_unit.Loader.{Action, decode_file, decode_byte_array}
use virtual_processing_unit.Loader.Program.{load_all}
use virtual_processing_unit.Loader.Executable.{link}
use virtual_processing_unit.Assembler.{front_end, assemble}
use virtual_processing_unit.Assembler.Load.{assemble-decode}
use virtual_processing_unit.Tests.Memory.{some_memory, some_memory-IsZone}

abbrev pub source : Text
source = codes "; a loop\nstart:\nmov rbx, 0x10\n#resmem 4096\nadd rbx, 5\njmp start\n"

abbrev pub some_actions : List SvasmAction
some_actions =
    push_action set unsigned_n (codes "16") 0x12
    ∷ plain push reg (codes "rax")
    ∷ push_action set unsigned_n (codes "5") 0x11
    ∷ push_action add reg (codes "rax") 0x12
    ∷ plain pop reg (codes "rax")
    ∷ plain lcall unsigned_n (codes "18446744073709551615")
    ∷ []

pub preprocessed : front_end (some source) ≡ ok (some_actions, none)
unfolding front_end preproc_instruction preproc_mov preproc_math preproc_calls resolve stoull_hex
    stoull preproc_inst
preprocessed = refl

abbrev pub no_bytes : Text → Option (List ℕ)
no_bytes raw = none

abbrev pub some_output : List ℕ
some_output =
    0 ∷ 0 ∷ 0 ∷ 0 ∷ 0 ∷ 0x10 ∷ 0 ∷ 0 ∷ 0x01 ∷ 0x12 ∷ 7 ∷ 0x10 ∷ 0x67 ∷ 0 ∷ 0x11 ∷ 0x01 ∷ 0x11 ∷ 7
    ∷ 5 ∷ 0x31 ∷ 0x12 ∷ 0x11 ∷ 0x68 ∷ 0 ∷ 0x11 ∷ 0x85 ∷ 0 ∷ 0xff ∷ 0xff ∷ 0xff ∷ 0xff ∷ 0xff ∷ 0xff
    ∷ 0xff ∷ 0xff ∷ []

pub compiled : compile_all no_bytes none some_actions ≡ ok some_output
unfolding compile_all compile_each compile_inst compile_argument opcode compile_constant is_num_reg
    compile_number stoull zero_args_opcodes uint64_args_opcodes reg_args_opcodes compile_register
    lookup ulltoa requested opt_arg_ops compba
compiled = refl

assemble-decode_example :
    (code : List ℕ) × (loaded : List Action) × (m' : Memory) × (assemble no_bytes (some source)
      ≡ ok (link some_output))
    × (decode_file (link some_output) ≡ some (0x100000, code))
    × (decode_byte_array (λ a. 0xcd) code some_memory ≡ some (loaded, m'))
    × (load_all no_bytes (λ a. 0xcd) some_actions some_memory ≡ some (loaded, m'))
    × (map (λ a. a.act) loaded ≡ set ∷ push ∷ set ∷ add ∷ pop ∷ lcall ∷ [])
    × (m'.memlen ≡ 300)
assemble-decode_example =
    assemble-decode no_bytes (λ a. 0xcd) (λ raw bs e. cc) (some source) some_actions none
      some_output some_memory (omega arith) some_memory-IsZone (omega arith) preprocessed compiled

parse_line-print_codeline_example :
    parse_line (codes "mov cr, \"a,b\"")
    ≡ ok (codeline (codes "mov") (codes "cr" ∷ codes "\"a,b\"" ∷ []))
parse_line-print_codeline_example =
    parse_line-print_codeline (codes "mov") (codes "cr" ∷ codes "\"a,b\"" ∷ []) (omega arith)
      ((omega arith, refl), ((omega arith, refl), tt))

fetch_lines-join_lines_example :
    fetch_lines (codes "; a\nret\n\nret\n") ≡ ok ((codes "ret", 2) ∷ (codes "ret", 4) ∷ [])
unfolding is_skipped
fetch_lines-join_lines_example =
    fetch_lines-join_lines (codes "; a") (codes "ret" ∷ [] ∷ codes "ret" ∷ []) (omega arith)

some_tokens :
    tokenize_arguments (codes "start" ∷ []) (codes "0x10" ∷ codes "[rbx]" ∷ codes "start" ∷ [])
    ≡ ok (
        token (codes "16") unsigned_n
        ∷ token (codes "[rbx]") stored_addr_reg
        ∷ token (codes "start") label
        ∷ [])
unfolding tokenize_arguments stoull_hex to_string
some_tokens = refl

tokenize_arguments-IsToken_example : All (IsToken (codes "start" ∷ [])) (
    token (codes "16") unsigned_n
    ∷ token (codes "[rbx]") stored_addr_reg
    ∷ token (codes "start") label
    ∷ [])
tokenize_arguments-IsToken_example =
    tokenize_arguments-IsToken (codes "start" ∷ [])
      (codes "0x10" ∷ codes "[rbx]" ∷ codes "start" ∷ [])
      (token (codes "16") unsigned_n
        ∷ token (codes "[rbx]") stored_addr_reg
        ∷ token (codes "start") label
        ∷ [])
      some_tokens

compile_number-to_string_example :
    (tokenize_arguments [] (to_string 300 ∷ []) ≡ ok (token (to_string 300) unsigned_n ∷ []))
    × (compile_number unsigned_n (to_string 300) ≡ ok (compba (ulltoa 300)))
compile_number-to_string_example = compile_number-to_string [] 300 (omega arith)

abbrev rbx_and_5 : List Token
rbx_and_5 = token (codes "rbx") reg ∷ token (codes "5") unsigned_n ∷ []

rbx_and_5-IsToken : All (IsToken []) rbx_and_5
unfolding member all_chars is_digit
rbx_and_5-IsToken = (refl, (refl, tt))

safe_add :
    preproc_instruction (codes "add") false rbx_and_5
    ≡ ok (
        plain push reg (codes "rax")
        ∷ push_action set unsigned_n (codes "5") 0x11
        ∷ push_action add reg (codes "rax") 0x12
        ∷ plain pop reg (codes "rax")
        ∷ [])
unfolding preproc_instruction preproc_math
safe_add = refl

preproc_instruction-unsafe_example :
    (us : List SvasmAction) × (preproc_instruction (codes "add") true rbx_and_5 ≡ ok us)
    × IsPartOf us (
        plain push reg (codes "rax")
        ∷ push_action set unsigned_n (codes "5") 0x11
        ∷ push_action add reg (codes "rax") 0x12
        ∷ plain pop reg (codes "rax")
        ∷ [])
preproc_instruction-unsafe_example =
    preproc_instruction-unsafe [] (codes "add") rbx_and_5 _ rbx_and_5-IsToken safe_add

three_arguments :
    preproc_instruction (codes "mov") true (token (codes "5") unsigned_n ∷ rbx_and_5)
    ≡ exits wrong_nargs
unfolding preproc_instruction preproc_mov
three_arguments = refl

preproc_instruction-errors_example : (wrong_nargs ≡ wrong_nargs) ⊎ (wrong_nargs ≡ argv_error)
unfolding all_chars is_digit
preproc_instruction-errors_example =
    preproc_instruction-errors [] (codes "mov") true (token (codes "5") unsigned_n ∷ rbx_and_5)
      wrong_nargs (refl, rbx_and_5-IsToken) three_arguments

abbrev ret_line : Tokenized
ret_line = tokenized (codes "ret") []

abbrev after_ret : Preproc
after_ret = record start_preproc { out_actions = plain ret reg [] ∷ [] }

first_ret : preproc_all (ret_line ∷ []) start_preproc ≡ ok after_ret
unfolding preproc_all preproc_inst preproc_instruction preproc_calls
first_ret = refl

second_ret :
    preproc_all (ret_line ∷ []) (with_label (codes "end") after_ret)
    ≡ ok (record (with_label (codes "end") after_ret) {
      out_actions = plain ret reg [] ∷ plain ret reg [] ∷ [];
    })
unfolding preproc_all preproc_inst preproc_instruction preproc_calls
second_ret = refl

preproc_tokenized-label_example :
    (added : List SvasmAction) × (preproc_tokenized
        (ret_line ∷ labeldef (codes "end") ∷ ret_line ∷ [])
      ≡ ok (map (resolve ((codes "end", 0) ∷ [])) (plain ret reg [] ∷ added), none))
    × ((label_value ((codes "end", 0) ∷ []) (codes "end") + 1) % 2 ^ 64 ≡ 1)
preproc_tokenized-label_example =
    preproc_tokenized-label (codes "end") (ret_line ∷ []) (ret_line ∷ []) after_ret _ (refl, tt)
      first_ret second_ret (omega arith)

compile_each-push_constant_example :
    ¬ (compile_each no_bytes (push_constant false (token (codes "5") unsigned_n) ++ []) ≡ ok [])
unfolding ◌is◌
compile_each-push_constant_example =
    compile_each-push_constant no_bytes (token (codes "5") unsigned_n) [] [] [] refl
