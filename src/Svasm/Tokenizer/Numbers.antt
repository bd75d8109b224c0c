-- ===== src/Svasm/Tokenizer/Numbers.antt =====
-- SVASM/Assembler/tokenizer.cpp and compiler.cpp: decimal numbers in a source, up to their bytes.
use virtual_processing_unit.Prelude.{
  ℕ, ◌^◌, ◌<◌, ◌≡◌, refl, arith, Bool, true, false, ◌&&◌, some, List, [], ◌∷◌, ◌==◌, ltb, take,
  length, Bool-cases, inl, inr, and-true, not, not-true,
}
use virtual_processing_unit.Bytes.{ulltoa, compba}
use virtual_processing_unit.Text.{Text, codes, text_eq, member, is_digit, all_chars, to_string}
use virtual_processing_unit.Text.Numbers.{
  IsDecimal, to_string-IsDecimal, stoull-to_string, head_digit, digit-minus,
}
use virtual_processing_unit.Svasm.{unsigned_n, ◌is◌, ok}
use virtual_processing_unit.Svasm.Compile.{compile_number}
use virtual_processing_unit.Svasm.Tokenizer.{
  registers, fp_regs, count_points, whole_number, is_num, token, tokenize_argument, convert_token,
  tokenize_arguments,
}

tail_digits : (c : ℕ) (t : Text) → all_chars is_digit (c ∷ t) ≡ true → all_chars is_digit t ≡ true
unfolding all_chars
tail_digits c t h = let k : all_chars is_digit t ≡ true = rw (head_digit c t h) at h in k

digit_ne : (c d : ℕ) → is_digit c ≡ true → is_digit d ≡ false → (c == d) ≡ false
unfolding is_digit
digit_ne c d h k = ground arith

count_points-digits :
    (t : Text) (points : ℕ) → all_chars is_digit t ≡ true → count_points t points ≡ some points
unfolding count_points is_digit
count_points-digits [] points h = refl
count_points-digits (c ∷ t) points h =
    rw (head_digit c t h, digit_ne c b'.' (head_digit c t h) refl)
      (count_points-digits t points (tail_digits c t h))

whole_number-digits :
    (c : ℕ) (t : Text) → all_chars is_digit (c ∷ t) ≡ true → whole_number (c ∷ t) ≡ some unsigned_n
unfolding whole_number
whole_number-digits c t h = rw (digit-minus c (head_digit c t h)) (rw h)

digit_ne' : (c d : ℕ) → is_digit c ≡ false → is_digit d ≡ true → (c == d) ≡ false
unfolding is_digit
digit_ne' c d h k = ground arith

digit_not_x : (d : ℕ) → is_digit d ≡ true → (d == b'x') ≡ false
unfolding is_digit
digit_not_x d h = ground arith

no_hex :
    (c : ℕ) (t : Text)
    → all_chars is_digit (c ∷ t) ≡ true
    → text_eq (take 2 (c ∷ t)) (codes "0x") ≡ false
unfolding text_eq
no_hex c [] h = ground arith
no_hex c (d ∷ t) h = ground (arith, digit_not_x d (head_digit d t (tail_digits c (d ∷ t) h)))

pub is_num-IsDecimal : (t : Text) → IsDecimal t → is_num t ≡ some unsigned_n
unfolding is_num
is_num-IsDecimal [] h = absurd h
is_num-IsDecimal (c ∷ t) h = elim (Bool-cases (ltb 2 (length (c ∷ t)))) [
  | inl long ↦ rw (long, no_hex c t h, count_points-digits (c ∷ t) 0 h) (whole_number-digits c t h)
  | inr short ↦ rw short (whole_number-digits c t h)
]

-- The names begin with a character that is not a digit.
no_digits : List Text → Bool
no_digits [] = true
no_digits ([] ∷ names) = no_digits names
no_digits ((c ∷ name) ∷ names) = not (is_digit c) && no_digits names

member-digit :
    (names : List Text) (c : ℕ) (t : Text)
    → is_digit c ≡ true
    → no_digits names ≡ true
    → member names (c ∷ t) ≡ false
unfolding member no_digits text_eq
member-digit [] c t h k = refl
member-digit ([] ∷ names) c t h k = member-digit names c t h k
member-digit ((d ∷ name) ∷ names) c t h k =
    let (letter, others) = and-true (not (is_digit d)) (no_digits names) k in
    rw (digit_ne' d c (not-true (is_digit d) letter) h) (member-digit names c t h others)

registers-no_digits : no_digits registers ≡ true
unfolding no_digits is_digit
registers-no_digits = refl

fp_regs-no_digits : no_digits fp_regs ≡ true
unfolding no_digits is_digit
fp_regs-no_digits = refl

tokenize_argument-IsDecimal :
    (labels : List Text) (t : Text)
    → IsDecimal t
    → tokenize_argument labels t ≡ ok (token t unsigned_n)
unfolding tokenize_argument
tokenize_argument-IsDecimal labels [] h = absurd h
tokenize_argument-IsDecimal labels (c ∷ t) h =
    let d = head_digit c t h in
    rw
      (
        member-digit registers c t d registers-no_digits,
        member-digit fp_regs c t d fp_regs-no_digits,
        is_num-IsDecimal (c ∷ t) h,
      )
      refl

-- Every 64-bit number written in decimal is taken for an unsigned number, keeps its digits, and is
-- compiled to its eight bytes, compressed.
pub compile_number-to_string :
    (labels : List Text) (n : ℕ)
    → n < 2 ^ 64
    → (tokenize_arguments labels (to_string n ∷ []) ≡ ok (token (to_string n) unsigned_n ∷ []))
      × (compile_number unsigned_n (to_string n) ≡ ok (compba (ulltoa n)))
unfolding tokenize_arguments convert_token compile_number ◌is◌
compile_number-to_string labels n small = (
  rw (tokenize_argument-IsDecimal labels (to_string n) (to_string-IsDecimal n)),
  rw (stoull-to_string n small),
)
