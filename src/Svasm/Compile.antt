-- ===== src/Svasm/Compile.antt =====
-- SVASM/Assembler/compiler.cpp: `compileInst` and `compileAll`, from actions to bytes.
use virtual_processing_unit.Prelude.{
  ℕ, ◌-◌, ◌&&◌, not, Option, none, some, List, [], ◌∷◌, ◌++◌, ◌==◌, if◌then◌else◌, take, length,
  get_or,
}
use virtual_processing_unit.Bytes.{ulltoa, compba}
use virtual_processing_unit.Registers.{is_num_reg, is_fp_reg, cr_id}
use virtual_processing_unit.VirtualActions.{
  set, opcode, contains, zero_args_opcodes, uint64_args_opcodes, reg_args_opcodes, opt_arg_ops,
}
use virtual_processing_unit.Text.{Text, lookup, stoull, stoll}
use virtual_processing_unit.Svasm.{
  TokenType, unsigned_n, signed_n, double_n, str, reg, fp_reg, ◌is◌, argv_error, exception, Svas,
  ok, exits, ◌>>=◌, from_option, SvasmAction, strreg_to_reg,
}

-- The lines that compile a number: a word, compressed.
unfoldable pub compile_number : TokenType → Text → Svas (List ℕ)
unfolding ◌is◌
compile_number v_type v_raw =
    if v_type is unsigned_n
    then (do value ← from_option exception (stoull v_raw); ok (compba (ulltoa value)))
    else if v_type is signed_n
    then (do value ← from_option exception (stoll v_raw); ok (compba (ulltoa value)))
    else exits argv_error

-- The character of a text between quotes, 0 if there is none: `substr(1, size - 2)`, which throws
-- on an empty text, and its first character.
unfoldable pub first_char : Text → Option ℕ
first_char [] = none
first_char (quote ∷ v_raw) = some (get_or (take (length v_raw - 1) v_raw) 0 0)

-- A character constant.
unfoldable pub compile_char : TokenType → Text → Svas (List ℕ)
unfolding ◌is◌ first_char
compile_char v_type v_raw =
    if v_type is str
    then (do c ← from_option exception (first_char v_raw); ok (c ∷ []))
    else exits argv_error

-- A register, by its name.
unfoldable pub compile_register : TokenType → Text → Svas (List ℕ)
unfolding ◌is◌
compile_register v_type v_raw =
    if not (v_type is reg) && not (v_type is fp_reg)
    then exits argv_error
    else (do comp_reg ← from_option exception (lookup strreg_to_reg v_raw); ok (comp_reg ∷ []))

-- The amount of memory to ask for: a megabyte unless the program says otherwise.
unfoldable pub requested : Option ℕ → ℕ
requested none = 0x100000
requested (some n) = n

-- `stold`, with the bytes of its result as they lie in memory, is a parameter.
module _ (stold_bytes : Text → Option (List ℕ)) where
  -- The constant of `set`, for the register that the optional byte names.
  unfoldable pub compile_constant : ℕ → TokenType → Text → Svas (List ℕ)
  unfolding ◌is◌
  compile_constant v_opt v_type v_raw =
      if is_num_reg v_opt
      then compile_number v_type v_raw
      else if is_fp_reg v_opt
      then (if v_type is double_n
          then from_option exception (stold_bytes v_raw)
          else exits argv_error)
      else if v_opt == cr_id
      then compile_char v_type v_raw
      else ok []

  -- What `compileInst` appends behind the opcode and the optional byte.
  unfoldable pub compile_argument : SvasmAction → Svas (List ℕ)
  compile_argument a =
      let comp_action = opcode a.action in
      if comp_action == opcode set
      then compile_constant a.opt_arg a.var_type a.var_raw
      else if contains zero_args_opcodes comp_action
      then ok []
      else if contains uint64_args_opcodes comp_action
      then compile_number a.var_type a.var_raw
      else if contains reg_args_opcodes comp_action
      then compile_register a.var_type a.var_raw
      else ok []

  -- `compileInst`.
  unfoldable pub compile_inst : SvasmAction → Svas (List ℕ)
  compile_inst a =
      let opt = if contains opt_arg_ops (opcode a.action) then a.opt_arg ∷ [] else [] in
      do argument ← compile_argument a; ok (opcode a.action ∷ (opt ++ argument))

  unfoldable pub compile_each : List SvasmAction → Svas (List ℕ)
  compile_each [] = ok []
  compile_each (a ∷ rest) = do
    bytes ← compile_inst a
    others ← compile_each rest
    ok (bytes ++ others)

  -- `compileAll`: the requested amount of memory, and the actions.
  unfoldable pub compile_all : Option ℕ → List SvasmAction → Svas (List ℕ)
  compile_all req_mem actions = do
    code ← compile_each actions
    ok (ulltoa (requested req_mem) ++ code)
