-- ===== src/Svasm/Preprocessor/Rejected.antt =====
-- SVASM/Assembler/compiler.cpp, `preprocStack` against `compileInst`: push of a constant.
use virtual_processing_unit.Prelude.{
  ℕ, ◌≡◌, refl, sym, ◌∙◌, true, false, ◌||◌, Option, List, [], ◌∷◌, ◌++◌, Bool-cases, inl, inr,
}
use virtual_processing_unit.VirtualActions.{
  opcode, zero_args_opcodes, uint64_args_opcodes, reg_args_opcodes,
}
use virtual_processing_unit.Text.{Text}
use virtual_processing_unit.Svasm.{
  unsigned_n, signed_n, double_n, ◌is◌, Token, argv_error, ok, exits, bind-ok, SvasmAction,
}
use virtual_processing_unit.Svasm.Compile.{
  compile_inst, compile_each, compile_argument, compile_register,
}
use virtual_processing_unit.Svasm.Preprocessor.Stack.{sub_rsp, push_constant}

module _ (stold_bytes : Text → Option (List ℕ)) where
  sub_rsp-compile_inst : (n : ℕ) → compile_inst stold_bytes (sub_rsp n) ≡ exits argv_error
  unfolding compile_inst compile_argument compile_register opcode zero_args_opcodes
      uint64_args_opcodes reg_args_opcodes ◌is◌
  sub_rsp-compile_inst n = refl

  -- What stands before and after does not matter.
  compile_each-sub_rsp :
      (n : ℕ) (before after : List SvasmAction) (bytes : List ℕ)
      → ¬ (compile_each stold_bytes (before ++ (sub_rsp n ∷ after)) ≡ ok bytes)
  unfolding compile_each
  compile_each-sub_rsp n [] after bytes h =
      let (code, one, more) = bind-ok (compile_inst stold_bytes (sub_rsp n)) _ bytes h in
      let bad : exits argv_error ≡ ok code = sym (sub_rsp-compile_inst n) ∙ one in cc
  compile_each-sub_rsp n (a ∷ before) after bytes h =
      let (code, one, more) = bind-ok (compile_inst stold_bytes a) _ bytes h in
      let (others, rest, e) =
        bind-ok (compile_each stold_bytes (before ++ (sub_rsp n ∷ after))) _ bytes more in
      compile_each-sub_rsp n before after others rest

  -- A program with the actions that push of a constant becomes in safe code is never compiled,
  -- whatever the constant is: the first of them subtracts a number from RSP, and the compiler takes
  -- only registers there.
  pub compile_each-push_constant :
      (arg : Token) (before after : List SvasmAction) (bytes : List ℕ)
      → ((arg.type is unsigned_n || arg.type is signed_n) || arg.type is double_n) ≡ true
      → ¬ (compile_each stold_bytes (before ++ (push_constant false arg ++ after)) ≡ ok bytes)
  unfolding push_constant
  compile_each-push_constant arg before after bytes constant h =
      elim (Bool-cases (arg.type is unsigned_n || arg.type is signed_n)) [
        | inl whole ↦ compile_each-sub_rsp 8 before _ bytes (rw whole at h)
        | inr other ↦
            let double : arg.type is double_n ≡ true = rw other at constant in
            compile_each-sub_rsp 16 before _ bytes (rw (other, double) at h)
      ]
