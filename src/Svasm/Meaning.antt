-- ===== src/Svasm/Meaning.antt =====
-- The argument that an action stands for, before it is compressed: what `compileInst` of
-- SVASM/Assembler/compiler.cpp writes and VirtualExecutableRunner/runner_main.cpp must find.
use virtual_processing_unit.Prelude.{
  ℕ, ◌≡◌, refl, not, ◌&&◌, Option, none, some, List, [], ◌∷◌, ◌==◌, if◌then◌else◌, length, arith,
  Bool-cases, inl, inr,
}
use virtual_processing_unit.Bytes.{ulltoa, compba, word_size}
use virtual_processing_unit.Bytes.Words.{ulltoa-IsWord}
use virtual_processing_unit.Registers.{is_num_reg, is_fp_reg, cr_id}
use virtual_processing_unit.VirtualActions.Opcodes.{
  ArgKind, constant_argument, no_argument, word_argument, register_argument, arg_kind,
}
use virtual_processing_unit.Text.{Text, lookup, stoull, stoll}
use virtual_processing_unit.Svasm.{
  TokenType, unsigned_n, signed_n, double_n, reg, fp_reg, ◌is◌, argv_error, exception, Svas, ok,
  exits, ◌>>=◌, from_option, SvasmAction, strreg_to_reg,
}
use virtual_processing_unit.Svasm.Compile.{compile_number, compile_char, compile_register}

-- The eight bytes of a number.
pub number_meaning : TokenType → Text → Svas (List ℕ)
unfolding ◌is◌
number_meaning v_type v_raw =
    if v_type is unsigned_n
    then (do v ← from_option exception (stoull v_raw); ok (ulltoa v))
    else if v_type is signed_n
    then (do v ← from_option exception (stoll v_raw); ok (ulltoa v))
    else exits argv_error

-- The identifier of a register, as a word.
pub register_meaning : TokenType → Text → Svas (List ℕ)
unfolding ◌is◌
register_meaning v_type v_raw =
    if not (v_type is reg) && not (v_type is fp_reg)
    then exits argv_error
    else (do r ← from_option exception (lookup strreg_to_reg v_raw); ok (ulltoa r))

compressed :
    (value : Option ℕ) (bytes : List ℕ)
    → (from_option exception value >>= λ v. ok (compba (ulltoa v))) ≡ ok bytes
    → (v : List ℕ) × ((from_option exception value >>= λ n. ok (ulltoa n)) ≡ ok v)
      × (bytes ≡ compba v)
      × (length v ≡ word_size)
compressed none bytes h = cc
compressed (some n) bytes h = (ulltoa n, refl, cc, (ulltoa-IsWord n).0)

-- A number compiles to its compressed bytes.
pub compile_number_lem :
    (t : TokenType) (raw : Text) (bytes : List ℕ)
    → compile_number t raw ≡ ok bytes
    → (v : List ℕ) × (number_meaning t raw ≡ ok v) × (bytes ≡ compba v) × (length v ≡ word_size)
unfolding compile_number number_meaning ◌is◌
compile_number_lem t raw bytes h = elim (Bool-cases (t is unsigned_n)) [
  | inl u ↦ rw u (compressed (stoull raw) bytes (rw u at h))
  | inr u ↦ elim (Bool-cases (t is signed_n)) [
    | inl n ↦ rw (u, n) (compressed (stoll raw) bytes (rw (u, n) at h))
    | inr n ↦ let no : exits argv_error ≡ ok bytes = rw (u, n) at h in cc
  ]
]

-- A register compiles to its identifier.
pub compile_register_lem :
    (t : TokenType) (raw : Text) (bytes : List ℕ)
    → compile_register t raw ≡ ok bytes
    → (r : ℕ) × (register_meaning t raw ≡ ok (ulltoa r)) × (bytes ≡ r ∷ [])
unfolding compile_register register_meaning
compile_register_lem t raw bytes h = ground arith

-- A character compiles to one byte.
pub compile_char_lem :
    (t : TokenType) (raw : Text) (bytes : List ℕ)
    → compile_char t raw ≡ ok bytes
    → (c : ℕ) × (bytes ≡ c ∷ [])
unfolding compile_char
compile_char_lem t raw bytes h = ground arith

module _ (stold_bytes : Text → Option (List ℕ)) where
  -- The constant of `set`.
  unfoldable pub constant_meaning : ℕ → TokenType → Text → Svas (List ℕ)
  unfolding ◌is◌
  constant_meaning v_opt v_type v_raw =
      if is_num_reg v_opt
      then number_meaning v_type v_raw
      else if is_fp_reg v_opt
      then (if v_type is double_n
          then from_option exception (stold_bytes v_raw)
          else exits argv_error)
      else if v_opt == cr_id
      then compile_char v_type v_raw
      else exits exception

  abbrev pub meaning_of_kind : ArgKind → SvasmAction → Svas (Option (List ℕ))
  meaning_of_kind constant_argument a = do
    v ← constant_meaning a.opt_arg a.var_type a.var_raw
    ok (some v)
  meaning_of_kind no_argument a = ok none
  meaning_of_kind word_argument a = do v ← number_meaning a.var_type a.var_raw; ok (some v)
  meaning_of_kind register_argument a = do v ← register_meaning a.var_type a.var_raw; ok (some v)

  -- What a compiled action leaves in memory for its handler, if it has an argument.
  unfoldable pub meaning : SvasmAction → Svas (Option (List ℕ))
  meaning a = meaning_of_kind (arg_kind a.action) a
