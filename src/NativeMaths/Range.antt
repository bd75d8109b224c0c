-- ===== src/NativeMaths/Range.antt =====
-- Registers/native_maths.cpp, `b_addGP` and `b_subGP`: wrap-around.
use virtual_processing_unit.Prelude.{
  ℕ, ◌+◌, ◌-◌, ◌<◌, ◌%◌, ◌≡◌, ◌≢◌, refl, ap₂, ◌∙◌, arith, true, some, ◌>>=◌,
}
use virtual_processing_unit.Bytes.{size_mod}
use virtual_processing_unit.Registers.{
  NumReg, x, ex, rx, rbp, rsp, rdi, rsi, get_num, set_num, is_num_reg, access_num,
}
use virtual_processing_unit.Registers.Aliasing.{
  RegsFit, capacity, get_num-set_num, get_num-set_num_ne, get_num-lt, home,
}
use virtual_processing_unit.Memory.{Machine}
use virtual_processing_unit.Floats.{FloatUnit, FpOp, fp_add, fp_sub}
use virtual_processing_unit.Args.{ArgTuple, att_to_reg_id}
use virtual_processing_unit.NativeMaths.{with_regs, int_op, b_op}

-- The operands of an arithmetic action are number registers.
pub record Operands (s : Machine) (arg : ArgTuple) (dest src : NumReg) : Type 0 where
  pub dest_num : is_num_reg arg.vopt ≡ true
  pub dest_entry : access_num arg.vopt ≡ some dest
  pub src_id : ℕ
  pub found : att_to_reg_id arg s.mem ≡ some src_id
  pub src_num : is_num_reg src_id ≡ true
  pub src_entry : access_num src_id ≡ some src

pub b_op-Operands :
    (unit : FloatUnit) (o : FpOp) (s : Machine) (arg : ArgTuple) (dest src : NumReg)
    → Operands s arg dest src
    → b_op unit o arg s ≡ (
        int_op o (get_num dest s.regs) (get_num src s.regs) >>= λ v.
        some (with_regs s (set_num dest v s.regs)))
unfolding b_op
b_op-Operands unit o s arg dest src h =
    rw (h.dest_num, h.found, h.src_num, h.dest_entry, h.src_entry) refl

subtract_back :
    (n : NumReg) (a b : ℕ)
    → a < capacity n
    → b < size_mod
    → ((a + b) % size_mod % capacity n + size_mod - b) % size_mod % capacity n ≡ a
subtract_back (x g) a b h small = omega arith
subtract_back (ex g) a b h small = omega arith
subtract_back (rx g) a b h small = omega arith
subtract_back rbp a b h small = omega arith
subtract_back rsp a b h small = omega arith
subtract_back rdi a b h small = omega arith
subtract_back rsi a b h small = omega arith

word_small : (n : NumReg) (v : ℕ) → v < capacity n → v < size_mod
word_small (x g) v h = omega arith
word_small (ex g) v h = omega arith
word_small (rx g) v h = omega arith
word_small rbp v h = omega arith
word_small rsp v h = omega arith
word_small rdi v h = omega arith
word_small rsi v h = omega arith

-- `sub` undoes `add` of a register with another home: the target has its value again, every other
-- register has kept its own, and nothing else has changed.
pub b_sub-b_add :
    (unit : FloatUnit) (s : Machine) (arg : ArgTuple) (dest src : NumReg)
    → Operands s arg dest src
    → RegsFit s.regs
    → home dest ≢ home src
    → (t : Machine) × ((b_op unit fp_add arg s >>= b_op unit fp_sub arg) ≡ some t)
      × (get_num dest t.regs ≡ get_num dest s.regs)
      × ((n : NumReg) → home dest ≢ home n → get_num n t.regs ≡ get_num n s.regs)
      × (t.mem ≡ s.mem)
      × (t.calling_tree ≡ s.calling_tree)
unfolding int_op
b_sub-b_add unit s arg dest src h fits apart =
    let a = get_num dest s.regs in
    let b = get_num src s.regs in
    let sum = with_regs s (set_num dest ((a + b) % size_mod) s.regs) in
    let v = (get_num dest sum.regs + size_mod - get_num src sum.regs) % size_mod in
    (
      with_regs sum (set_num dest v sum.regs),
      rw (b_op-Operands unit fp_add s arg dest src h) (
          b_op-Operands unit fp_sub sum arg dest src (record {
            dest_num = h.dest_num;
            dest_entry = h.dest_entry;
            src_id = h.src_id;
            found = h.found;
            src_num = h.src_num;
            src_entry = h.src_entry;
          })),
      get_num-set_num dest v sum.regs
          ∙ ap₂ (λ (p q : ℕ). (p + size_mod - q) % size_mod % capacity dest)
              (get_num-set_num dest ((a + b) % size_mod) s.regs)
              (get_num-set_num_ne dest src ((a + b) % size_mod) s.regs apart)
          ∙ subtract_back dest a b (get_num-lt dest s.regs fits)
              (word_small src b (get_num-lt src s.regs fits)),
      λ n ne.
          get_num-set_num_ne dest n v sum.regs ne
          ∙ get_num-set_num_ne dest n ((a + b) % size_mod) s.regs ne,
      refl,
      refl,
    )
