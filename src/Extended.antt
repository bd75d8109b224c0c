-- ===== src/Extended.antt =====
-- Registers/extended_symbols.cpp: strings in memory, conversions and terminal text.
pub mod Strings
use virtual_processing_unit.Prelude.{
  ℕ, zero, suc, ◌+◌, ◌-◌, ◌%◌, ◌^◌, Bool, true, false, Option, none, some, ◌>>=◌, List, [], ◌∷◌,
  ◌++◌, reverse, ltb, leb, ◌==◌, if◌then◌else◌, length, take, replicate,
}
use virtual_processing_unit.Bytes.{sub64, word_size, le_value, le_bytes, size_mod}
use virtual_processing_unit.Registers.{
  Regs, NumReg, x, ex, rx, rbp, rsp, rdi, rsi, get_num, set_num,
}
use virtual_processing_unit.Memory.{Memory, Machine, push, pop, ms, mg}
use virtual_processing_unit.Floats.{FloatUnit, Reg, num, chr, fp, access, long_double_size}
use virtual_processing_unit.Args.{ArgTuple, Host, zeroed, att_to_reg_id}
use virtual_processing_unit.NativeMaths.{with_regs}
use virtual_processing_unit.MemorySymbols.{with_mem, with_num_reg}
use virtual_processing_unit.Text.{Text, to_string, signed_to_string, stream_unsigned, stream_signed}

-- A string cut to `dest_len - 1` characters and copied, with the 0 behind it, to a cleared buffer of
-- `dest_len` bytes. For no bytes `dest_len - 1` wraps round and the copy leaves the buffer.
unfoldable pub string_buffer : Text → ℕ → Option (List ℕ)
string_buffer str dest_len =
    let cut = if leb dest_len (length str) then take (sub64 dest_len 1) str else str in
    if ltb (length cut) dest_len then some (cut ++ zeroed (dest_len - length cut)) else none

-- `std::string(char*)`: the characters up to the first 0; without one it reads behind the buffer.
unfoldable pub c_string : List ℕ → Option Text
c_string [] = none
c_string (b ∷ bytes) =
    let rest = c_string bytes in if b == 0 then some [] else (do t ← rest; some (b ∷ t))

-- `b_getInput`, with the text that was typed.
unfoldable pub b_get_input : Text → Machine → Option Machine
unfolding string_buffer
b_get_input input s = do
  temp ← string_buffer input s.regs.rsi
  m ← ms temp s.regs.rdi s.mem
  some (with_mem s m)

-- `b_toString`.
unfoldable pub b_to_string : ArgTuple → Machine → Option Machine
unfolding string_buffer
b_to_string arg s = with_num_reg arg s (λ reg. do
  temp ← string_buffer (to_string (get_num reg s.regs)) s.regs.rsi
  m ← ms temp s.regs.rdi s.mem
  some (with_mem s m))

-- The loop of `b_strlen` over the buffer.
unfoldable pub zero_index : List ℕ → ℕ
zero_index [] = 0
zero_index (b ∷ bytes) = let rest = zero_index bytes in if b == 0 then 0 else suc rest

-- `b_strlen`.
unfoldable pub b_strlen : Machine → Option Machine
unfolding zero_index
b_strlen s = do
  temp ← mg (zeroed s.regs.rsi) s.regs.rdi s.mem
  some (with_regs s (record s.regs { rsi = zero_index temp }))

-- What `b_print` writes to the terminal; `b_println` writes the end of a line behind it.
unfoldable pub b_print : Machine → Option Text
unfolding c_string
b_print s = mg (zeroed s.regs.rdi) s.regs.rsi s.mem >>= c_string

-- The value as the type of the register's word.
unfoldable pub cast_to : NumReg → ℕ → ℕ
cast_to (x g) value = value % 2 ^ 16
cast_to (ex g) value = value % 2 ^ 32
cast_to (rx g) value = value
cast_to rbp value = value
cast_to rsp value = value
cast_to rdi value = value
cast_to rsi value = value

-- `b_CRToSR`.
unfoldable pub b_cr_to_sr : Machine → Option Machine
b_cr_to_sr s = do m ← ms (s.regs.cr ∷ []) s.regs.rdi s.mem; some (with_mem s m)

-- `b_RevSR`.
unfoldable pub b_rev_sr : Machine → Option Machine
b_rev_sr s = do
  temp ← mg (zeroed s.regs.rsi) s.regs.rdi s.mem
  m ← ms (reverse temp) s.regs.rdi s.mem
  some (with_mem s m)

module _ (host : Host) where
  -- `b_castreg`. Another register than a number register is undefined behaviour.
  unfoldable pub b_castreg : ArgTuple → Machine → Option Machine
  unfolding cast_to
  b_castreg arg s = do
    recv_id ← att_to_reg_id arg s.mem
    (temp, s') ← pop (host.uninit word_size) true s
    reg ← access recv_id
    elim reg [
      | num n ↦ some (with_regs s' (set_num n (cast_to n (le_value temp)) s'.regs))
      | chr ↦ none
      | fp f ↦ none
    ]

  -- The conversion of `b_recast` to a string: it hands on `str_len` bytes of a string that has its
  -- characters and a 0.
  unfoldable pub recast_string : ℕ → Machine → Option Machine
  recast_string value s = do
    (b₁, s₁) ← pop (zeroed word_size) true s
    (b₂, s₂) ← pop b₁ true s₁
    let str_len = le_value b₁
    let text = signed_to_string value
    let output = (if ltb str_len (length text) then take str_len text else text) ++ 0 ∷ []
    if leb str_len (length output)
        then (do m ← ms (take str_len output) (le_value b₂) s₂.mem; some (with_mem s₂ m))
        else none

  -- `b_recast`: between signed and unsigned numbers the bits stay as they are.
  unfoldable pub b_recast : Machine → Option Machine
  unfolding recast_string
  b_recast s = do
    (t₁, s₁) ← pop (host.uninit word_size) true s
    (t₂, s₂) ← pop t₁ true s₁
    let value = le_value t₁
    let recast_type = le_value t₂
    if ltb recast_type 3
        then push (le_bytes word_size value) true s₂
        else if recast_type == 3
        then recast_string value s₂
        else some s₂

-- `llround` and the printing and reading of a `long double`, which the source leaves to <cmath> and
-- the streams.
pub record FloatText : Type 0 where
  pub llround : ℕ → ℕ
  pub show : ℕ → Text
  pub read : Text → ℕ

module _ (unit : FloatUnit) (float_text : FloatText) where
  -- `b_fromString`, which restores CR after it has pushed a character through it.
  unfoldable pub b_from_string : Machine → Option Machine
  b_from_string s = do
    (t₁, s₁) ← pop (zeroed word_size) true s
    (t₂, s₂) ← pop t₁ true s₁
    (t₃, s₃) ← pop t₂ true s₂
    let cast_type = le_value t₃
    value ← mg (zeroed (le_value t₁)) (le_value t₂) s₃.mem
    if cast_type == 0
        then push (le_bytes word_size (stream_unsigned value)) true s₃
        else if cast_type == 1
        then push (le_bytes word_size (stream_signed value)) true s₃
        else if cast_type == 2
        then push (elim value [ [] ↦ 0 | c ∷ rest ↦ c ] ∷ []) true s₃
        else if cast_type == 3
        then push (unit.to_bytes (float_text.read value)) true s₃
        else some s₃

  -- `b_FPToSR`.
  unfoldable pub b_fp_to_sr : Machine → Option Machine
  b_fp_to_sr s = do
    (uc_ld, s') ← pop (zeroed long_double_size) true s
    let s_value = take (sub64 s'.regs.rsi 1) (float_text.show (unit.of_bytes uc_ld))
    m ← ms (s_value ++ 0 ∷ []) s'.regs.rdi s'.mem
    some (with_mem s' m)

  -- `b_FPToULL` and `b_FPToLL`, which push the same bits.
  unfoldable pub b_fp_to_ull : Machine → Option Machine
  b_fp_to_ull s = do
    (uc_ld, s') ← pop (zeroed long_double_size) true s
    push (le_bytes word_size (float_text.llround (unit.of_bytes uc_ld))) true s'
