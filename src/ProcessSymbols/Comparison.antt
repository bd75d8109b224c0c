-- ===== src/ProcessSymbols/Comparison.antt =====
-- Actions/process_symbols.cpp: `p_cmp` and the conditional jumps.
use virtual_processing_unit.Prelude.{
  ℕ, ◌≤◌, ◌<◌, ◌≡◌, ◌≢◌, ◌↔◌, refl, ap, ◌∙◌, sym, arith, true, false, some, length, length-reverse,
  reverse, Bool-cases, inl, inr,
}
use virtual_processing_unit.Bytes.{add64, word_size, size_mod, be_bytes}
use virtual_processing_unit.Bytes.LittleEndian.{reverse-be_bytes, length-be_bytes8}
use virtual_processing_unit.Registers.{Regs}
use virtual_processing_unit.Memory.{Machine, push, swap_endian}
use virtual_processing_unit.Memory.Stack.RoundTrip.{IsStack, Room}
use virtual_processing_unit.Memory.Stack.Order.{pop-pop-push}
use virtual_processing_unit.Args.{ArgTuple, Host, arg_to_ull}
use virtual_processing_unit.ProcessSymbols.{
  compare_words, cmp_none, with_cmp, Condition, equal, not_equal, less, greater, less_equal,
  greater_equal, is_met, p_cmp, p_jump_if,
}

-- What the condition of a jump says of the two numbers that were compared.
unfoldable pub Relates : Condition → ℕ → ℕ → Type 0
Relates equal a b = a ≡ b
Relates not_equal a b = a ≢ b
Relates less a b = a < b
Relates greater a b = b < a
Relates less_equal a b = a ≤ b
Relates greater_equal a b = b ≤ a

-- The result of a comparison meets a condition just when the numbers stand in its relation.
pub is_met-compare_words :
    (c : Condition) (a b : ℕ) → (is_met c (compare_words a b) ≡ true) ↔ Relates c a b
unfolding is_met compare_words Relates
is_met-compare_words equal a b = ground arith
is_met-compare_words not_equal a b = ground arith
is_met-compare_words less a b = ground arith
is_met-compare_words greater a b = ground arith
is_met-compare_words less_equal a b = ground arith
is_met-compare_words greater_equal a b = ground arith

-- After a comparison of `a` with `b` a conditional jump adds its argument to the program counter,
-- and forgets the comparison, if the numbers stand in its relation; otherwise it changes nothing.
pub p_jump_if-compare_words :
    (host : Host) (c : Condition) (arg : ArgTuple) (s : Machine) (a b move : ℕ)
    → s.regs.cmp_out ≡ compare_words a b
    → arg_to_ull host arg s.mem ≡ some move
    → (Relates c a b
        → (t : Machine) × (p_jump_if host c arg s ≡ some t)
          × (t.regs.program_counter ≡ add64 s.regs.program_counter move)
          × (t.regs.cmp_out ≡ cmp_none)
          × (t.mem ≡ s.mem))
      × (¬ Relates c a b → p_jump_if host c arg s ≡ some s)
unfolding p_jump_if
p_jump_if-compare_words host c arg s a b move out found = (
  λ holds.
      let met = (is_met-compare_words c a b).1 holds in
      (
        with_cmp
            (record s {
              regs = record s.regs { program_counter = add64 s.regs.program_counter move };
            })
            cmp_none,
        rw (found, out, met) refl,
        refl,
        refl,
        refl,
      ),
  λ fails. elim (Bool-cases (is_met c (compare_words a b))) [
    | inl met ↦ absurd (fails ((is_met-compare_words c a b).0 met))
    | inr met ↦ rw (found, out, met) refl
  ],
)

-- `cmp` on two words that were pushed compares the one that was pushed last with the other, and
-- takes both off the stack.
pub p_cmp-push :
    (host : Host) (s : Machine) (a b : ℕ)
    → length (host.uninit word_size) ≡ word_size
    → IsStack s
    → Room s 16
    → a < size_mod
    → b < size_mod
    → (s₁ s₂ t : Machine) × (push (be_bytes 8 a) false s ≡ some s₁)
      × (push (be_bytes 8 b) false s₁ ≡ some s₂)
      × (p_cmp host s₂ ≡ some t)
      × (t.regs ≡ record s.regs { cmp_out = compare_words b a })
      × (t.calling_tree ≡ s.calling_tree)
unfolding p_cmp swap_endian
p_cmp-push host s a b size ok room small small' =
    let la = length-be_bytes8 a in
    let lb = length-be_bytes8 b in
    let (s₁, s₂, s₃, s₄, e₁, e₂, e₃, e₄, regs, tree) =
      pop-pop-push s (be_bytes 8 a) (be_bytes 8 b) (host.uninit word_size) (reverse (be_bytes 8 b))
        false false true true ok (omega (arith, la)) (omega (arith, lb)) (omega (arith, la, lb))
        (size ∙ sym lb) (length-reverse (be_bytes 8 b) ∙ lb ∙ sym la) in
    (
      s₁,
      s₂,
      with_cmp s₄ (compare_words b a),
      e₁,
      e₂,
      rw (e₃, e₄, reverse-be_bytes a small, reverse-be_bytes b small') refl,
      ap (λ (r : Regs). record r { cmp_out = compare_words b a }) regs,
      tree,
    )
