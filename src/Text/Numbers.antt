-- ===== src/Text/Numbers.antt =====
-- `std::to_string` and `std::stoull` on decimal numbers.
use virtual_processing_unit.Prelude.{
  ℕ, zero, suc, ◌+◌, ◌-◌, ◌*◌, ◌/◌, ◌%◌, ◌^◌, ◌≤◌, ◌<◌, ◌≡◌, refl, ap, ◌∙◌, true, false, none, some,
  [], ◌∷◌, ltb, ◌==◌, if◌then◌else◌, arith, Bool-cases, inl, inr,
}
use virtual_processing_unit.Text.{
  Text, is_digit, all_chars, digits_from, number_from, to_string, is_space, skip_spaces, stoull,
  magnitude, unsigned_text,
}

-- A text of decimal digits, at least one.
abbrev pub IsDecimal : Text → Type 0
IsDecimal [] = ⊥
IsDecimal (c ∷ t) = all_chars is_digit (c ∷ t) ≡ true

is_digit-mod : (n : ℕ) → is_digit (b'0' + n % 10) ≡ true
unfolding is_digit
is_digit-mod n = ground arith

digits_from-IsDecimal :
    (fuel n : ℕ) (acc : Text) → all_chars is_digit acc ≡ true → IsDecimal (digits_from fuel n acc)
unfolding digits_from all_chars
digits_from-IsDecimal zero n acc h = rw (is_digit-mod n) h
digits_from-IsDecimal (suc fuel) n acc h = elim (Bool-cases (n / 10 == 0)) [
  | inl last ↦ rw last (rw (is_digit-mod n) h)
  | inr more ↦
      rw more (digits_from-IsDecimal fuel (n / 10) ((b'0' + n % 10) ∷ acc) (rw (is_digit-mod n) h))
]

pub to_string-IsDecimal : (n : ℕ) → IsDecimal (to_string n)
unfolding to_string all_chars
to_string-IsDecimal n = digits_from-IsDecimal n n [] refl

number_from-digit :
    (d : ℕ) (t : Text) (acc : ℕ)
    → d < 10
    → number_from ((b'0' + d) ∷ t) acc ≡ number_from t (acc * 10 + d)
unfolding number_from is_digit
number_from-digit d t acc h = ground (arith, ap (number_from t) (cancel (acc * 10) d))
  where
    cancel : (m d : ℕ) → m + (b'0' + d - b'0') ≡ m + d
    cancel m d = omega arith

number_from-digits_from :
    (fuel n : ℕ) (acc : Text)
    → n ≤ fuel
    → number_from (digits_from fuel n acc) 0 ≡ number_from acc n
unfolding digits_from
number_from-digits_from zero n acc h =
    number_from-digit (n % 10) acc 0 (omega arith) ∙ ap (number_from acc) (omega arith)
number_from-digits_from (suc fuel) n acc h = elim (Bool-cases (n / 10 == 0)) [
  | inl last ↦
      rw last (number_from-digit (n % 10) acc 0 (omega arith) ∙ ap (number_from acc) (ground arith))
  | inr more ↦ rw more (
      number_from-digits_from fuel (n / 10) ((b'0' + n % 10) ∷ acc) (ground arith)
      ∙ number_from-digit (n % 10) acc (n / 10) (omega arith)
      ∙ ap (number_from acc) (omega arith))
]

digit-is_space : (c : ℕ) → is_digit c ≡ true → is_space c ≡ false
unfolding is_digit is_space
digit-is_space c h = ground arith

pub digit-minus : (c : ℕ) → is_digit c ≡ true → (c == b'-') ≡ false
unfolding is_digit
digit-minus c h = ground arith

digit-plus : (c : ℕ) → is_digit c ≡ true → (c == b'+') ≡ false
unfolding is_digit
digit-plus c h = ground arith

pub head_digit : (c : ℕ) (t : Text) → all_chars is_digit (c ∷ t) ≡ true → is_digit c ≡ true
unfolding all_chars
head_digit c t h = elim (Bool-cases (is_digit c)) [
  | inl d ↦ d
  | inr other ↦ let no : false ≡ true = rw other at h in cc
]

skip_spaces-digit : (c : ℕ) (t : Text) → is_digit c ≡ true → skip_spaces (c ∷ t) ≡ c ∷ t
unfolding skip_spaces
skip_spaces-digit c t d = rw (digit-is_space c d)

unsigned_text-digit :
    (c : ℕ) (t : Text)
    → is_digit c ≡ true
    → unsigned_text (c ∷ t)
      ≡ (if ltb (number_from (c ∷ t) 0) (2 ^ 64) then some (number_from (c ∷ t) 0) else none)
unfolding unsigned_text magnitude
unsigned_text-digit c t d = ground (arith, digit-minus c d, digit-plus c d)

-- The value of a text of decimal digits, where it fits.
pub stoull-IsDecimal :
    (t : Text)
    → IsDecimal t
    → stoull t ≡ (if ltb (number_from t 0) (2 ^ 64) then some (number_from t 0) else none)
unfolding stoull
stoull-IsDecimal [] h = absurd h
stoull-IsDecimal (c ∷ t) h =
    ap unsigned_text (skip_spaces-digit c t (head_digit c t h))
    ∙ unsigned_text-digit c t (head_digit c t h)

pub stoull-to_string : (n : ℕ) → n < 2 ^ 64 → stoull (to_string n) ≡ some n
unfolding to_string number_from
stoull-to_string n h =
    stoull-IsDecimal (to_string n) (to_string-IsDecimal n)
    ∙ rw (number_from-digits_from n n [] (omega arith)) (ground arith)
