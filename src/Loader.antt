-- ===== src/Loader.antt =====
-- VirtualExecutableRunner/runner_main.cpp: from an executable file to the actions of a process.
-- Reading behind the end of the file is undefined behaviour and an unknown operand is an
-- exception: both are `none`.
pub mod Words
pub mod RoundTrip
pub mod Program
pub mod Total
pub mod Executable
use virtual_processing_unit.Prelude.{
  ℕ, zero, suc, ◌+◌, ◌-◌, ◌%◌, Bool, true, false, Option, none, some, ◌>>=◌, List, [], ◌∷◌, ◌++◌,
  ltb, ◌==◌, if◌then◌else◌, length,
}
use virtual_processing_unit.Bytes.{ulltoa, atoull, extdba, word_size}
use virtual_processing_unit.Registers.{is_num_reg, is_fp_reg, cr_id}
use virtual_processing_unit.Memory.{Memory, sdzs}
use virtual_processing_unit.Args.{ArgTuple, Host}
use virtual_processing_unit.Floats.{long_double_size}
use virtual_processing_unit.VirtualActions.{
  VirtualAction, set, opcode, action_of_opcode, contains, zero_args_opcodes, uint64_args_opcodes,
  reg_args_opcodes, opt_arg_ops,
}

-- `action`: what to do, and a null pointer or a pointer to the place of its argument.
pub record Action : Type 0 where
  pub act : VirtualAction
  pub value_ptr : Option ArgTuple

-- The next byte, and the next `n` bytes.
abbrev pub next_byte : List ℕ → Option (ℕ × List ℕ)
next_byte [] = none
next_byte (b ∷ data') = some (b, data')

unfoldable pub next_bytes : ℕ → List ℕ → Option (List ℕ × List ℕ)
next_bytes zero data' = some ([], data')
next_bytes (suc n) [] = none
next_bytes (suc n) (b ∷ data') = do (bytes, rest) ← next_bytes n data'; some (b ∷ bytes, rest)

-- The lines that extend a compressed word: its count of zeros, then its digits, or one more byte.
unfoldable pub decode_word : List ℕ → Option (List ℕ × List ℕ)
unfolding next_bytes
decode_word data' = do
  (zeros, data₁) ← next_byte data'
  (digits, rest) ← next_bytes (if ltb zeros word_size then word_size - zeros else 1) data₁
  value ← extdba (zeros ∷ digits)
  some (value, rest)

abbrev pub add_action : Option Action → List Action → List Action
add_action none actions = actions
add_action (some a) actions = a ∷ actions

module _ (fresh : ℕ → ℕ) where
  -- A constant goes to the top of the static data zone, and the action is told where.
  unfoldable pub keep :
      VirtualAction → ℕ → List ℕ → List ℕ → Memory → Option (Action × List ℕ × Memory)
  keep act opt bytes rest m = do
    m' ← sdzs fresh bytes m
    some (
      record {
        act = act;
        value_ptr = some (record { vaddr = m.sdztop; vsize = length bytes; vopt = opt });
      },
      rest,
      m',
    )

  -- The part of the loop for `set`, behind the opcode and the optional byte.
  unfoldable pub decode_set : ℕ → List ℕ → Memory → Option (Action × List ℕ × Memory)
  decode_set opt data' m =
      if is_num_reg opt
      then (do (value, rest) ← decode_word data'; keep set opt value rest m)
      else if is_fp_reg opt
      then (do (value, rest) ← next_bytes long_double_size data'; keep set opt value rest m)
      else if opt == cr_id
      then (do (c, rest) ← next_byte data'; keep set opt (c ∷ []) rest m)
      else none

  -- The optional byte, if the opcode has one; otherwise `nbyte()`.
  unfoldable pub decode_opt : ℕ → List ℕ → Option (ℕ × List ℕ)
  decode_opt op data' = if contains opt_arg_ops op then next_byte data' else some (0, data')

  -- One round of the loop of `decodeByteArray`, behind the opcode. An opcode that is in no set is
  -- passed over alone, though its optional byte is looked at.
  unfoldable pub decode_action : ℕ → List ℕ → Memory → Option (Option Action × List ℕ × Memory)
  unfolding decode_opt
  decode_action op data' m = do
    (opt, data₁) ← decode_opt op data'
    if op == opcode set
        then (do (a, rest, m') ← decode_set opt data₁ m; some (some a, rest, m'))
        else if contains zero_args_opcodes op
        then (do
          real_op ← action_of_opcode op
          some (some (record { act = real_op; value_ptr = none }), data₁, m))
        else if contains uint64_args_opcodes op
        then (do
          real_op ← action_of_opcode op
          (value, rest) ← decode_word data₁
          (a, rest', m') ← keep real_op opt value rest m
          some (some a, rest', m'))
        else if contains reg_args_opcodes op
        then (do
          real_op ← action_of_opcode op
          (reg, rest) ← next_byte data₁
          (a, rest', m') ← keep real_op opt (ulltoa reg) rest m
          some (some a, rest', m'))
        else some (none, data', m)

  -- The loop of `decodeByteArray`; a round reads at least one byte, so the number of bytes is fuel
  -- enough.
  unfoldable pub decode_from : ℕ → List ℕ → Memory → Option (List Action × Memory)
  decode_from fuel [] m = some ([], m)
  decode_from zero (op ∷ data') m = none
  decode_from (suc fuel) (op ∷ data') m = do
    (a, rest, m') ← decode_action op data' m
    (actions, m'') ← decode_from fuel rest m'
    some (add_action a actions, m'')

  -- `decodeByteArray`.
  unfoldable pub decode_byte_array : List ℕ → Memory → Option (List Action × Memory)
  decode_byte_array data' m = decode_from (length data') data' m

-- `decodeFile`: the requested amount of memory, and the code.
unfoldable pub decode_file : List ℕ → Option (ℕ × List ℕ)
unfolding next_bytes
decode_file file_content = do
  (b_req_mem, data₁) ← next_bytes word_size file_content
  (buffer, data₂) ← next_bytes word_size data₁
  (main_code, _) ← next_bytes (atoull buffer) data₂
  some (atoull b_req_mem, main_code)
