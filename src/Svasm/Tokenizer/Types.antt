-- ===== src/Svasm/Tokenizer/Types.antt =====
-- SVASM/Assembler/tokenizer.cpp, `isNum`, `tokenizeArgument` and the loop of `tokenizeCodeline`:
-- what an argument of each type looks like.
use virtual_processing_unit.Prelude.{
  ℕ, zero, suc, ◌+◌, ◌≤◌, ◌≡◌, refl, ap, ◌∙◌, arith, Bool, true, false, Option, none, some, List,
  [], ◌∷◌, ltb, ◌==◌, if◌then◌else◌, take, drop, length, All, Bool-cases, inl, inr, and-true,
  some-injective, if-some, subst,
}
use virtual_processing_unit.Text.{
  Text, codes, text_eq, member, is_digit, all_chars, is_xdigit, stoull_hex, to_string,
}
use virtual_processing_unit.Text.Numbers.{IsDecimal, to_string-IsDecimal}
use virtual_processing_unit.Svasm.{
  TokenType, error_type, unsigned_n, signed_n, hex_n, double_n, str, reg, fp_reg, stored_addr_reg,
  stored_addr_raw, label, safety_directive, memory_directive, type_quantifier, ◌is◌, Token, ok,
  exits, ◌>>=◌, from_option, exception, unknown_type, bind-ok, ok-injective,
}
use virtual_processing_unit.Svasm.Parser.{is_empty}
use virtual_processing_unit.Svasm.Tokenizer.{
  registers, fp_regs, count_points, whole_number, number_or_double, is_num, is_str, is_reg_addr,
  is_imm_addr, is_unsigned, is_addr, is_tq, inner, token, tokenize_other, tokenize_argument,
  decimal_address, convert_address, convert_token, tokenize_arguments,
}

-- A minus sign and decimal digits.
abbrev pub IsSigned : Text → Type 0
IsSigned [] = ⊥
IsSigned (c ∷ t) = (c ≡ b'-') × IsDecimal t

-- What `isNum` promises of a text by the type that it gives.
abbrev pub HasNumberType : TokenType → Text → Type 0
HasNumberType unsigned_n s = IsDecimal s
HasNumberType signed_n s = IsSigned s
HasNumberType hex_n s = all_chars is_xdigit (drop 2 s) ≡ true
HasNumberType double_n s = count_points s 0 ≡ some 1
HasNumberType _ s = ⊥

-- What the tokenizer promises of a token by its type.
abbrev pub HasType : List Text → TokenType → Text → Type 0
HasType labels unsigned_n s = IsDecimal s
HasType labels signed_n s = IsSigned s
HasType labels double_n s = count_points s 0 ≡ some 1
HasType labels str s = is_str s ≡ true
HasType labels reg s = member registers s ≡ true
HasType labels fp_reg s = member fp_regs s ≡ true
HasType labels stored_addr_reg s = is_reg_addr s ≡ true
HasType labels stored_addr_raw s = IsDecimal s
HasType labels label s = member labels s ≡ true
HasType labels type_quantifier s = is_tq s ≡ true
HasType labels _ s = ⊥

abbrev pub IsToken : List Text → Token → Type 0
IsToken labels t = HasType labels t.type t.element

signed_type :
    (c : ℕ) (t : Text) (type : TokenType)
    → (c == b'-') ≡ true
    → (if is_empty t then none else if all_chars is_digit t then some signed_n else none)
      ≡ some type
    → HasNumberType type (c ∷ t)
signed_type c [] type minus h = cc
signed_type c (d ∷ t) type minus h =
    let u = if-some (all_chars is_digit (d ∷ t)) signed_n type h in
    let sign : c ≡ b'-' = ground arith in
    subst (λ type. HasNumberType type (c ∷ d ∷ t)) u.1 (sign, u.0)

whole_number-HasNumberType :
    (c : ℕ) (t : Text) (type : TokenType)
    → whole_number (c ∷ t) ≡ some type
    → HasNumberType type (c ∷ t)
unfolding whole_number
whole_number-HasNumberType c t type h = elim (Bool-cases (c == b'-')) [
  | inl minus ↦ signed_type c t type minus (rw minus at h)
  | inr other ↦
      let u = if-some (all_chars is_digit (c ∷ t)) unsigned_n type (rw other at h) in
      subst (λ type. HasNumberType type (c ∷ t)) u.1 u.0
]

count_points-le : (t : Text) (points n : ℕ) → count_points t points ≡ some n → points ≤ 1 → n ≤ 1
unfolding count_points
count_points-le [] points n h k = ground arith
count_points-le (c ∷ t) points n h k =
    ground (arith, count_points-le t (points + 1) n, count_points-le t points n)

number_or_double-HasNumberType :
    (c : ℕ) (t : Text) (type : TokenType) (points : Option ℕ)
    → count_points (c ∷ t) 0 ≡ points
    → number_or_double (c ∷ t) points ≡ some type
    → HasNumberType type (c ∷ t)
number_or_double-HasNumberType c t type none e h = cc
number_or_double-HasNumberType c t type (some zero) e h = whole_number-HasNumberType c t type h
number_or_double-HasNumberType c t type (some (suc points)) e h =
    let one : suc points ≡ 1 =
      omega (arith, count_points-le (c ∷ t) 0 (suc points) e (omega arith)) in
    subst (λ type. HasNumberType type (c ∷ t)) (some-injective double_n type h) (e ∙ ap some one)

hex_or_double :
    (c : ℕ) (t : Text) (type : TokenType) (hex : Bool)
    → (if hex
        then (if all_chars is_xdigit (drop 2 (c ∷ t)) then some hex_n else none)
        else number_or_double (c ∷ t) (count_points (c ∷ t) 0))
      ≡ some type
    → HasNumberType type (c ∷ t)
hex_or_double c t type true h =
    let u = if-some (all_chars is_xdigit (drop 2 (c ∷ t))) hex_n type h in
    subst (λ type. HasNumberType type (c ∷ t)) u.1 u.0
hex_or_double c t type false h =
    number_or_double-HasNumberType c t type (count_points (c ∷ t) 0) refl h

-- The types that `isNum` gives.
pub is_num-HasNumberType :
    (s : Text) (type : TokenType) → is_num s ≡ some type → HasNumberType type s
unfolding is_num
is_num-HasNumberType [] type h = cc
is_num-HasNumberType (c ∷ t) type h = elim (Bool-cases (ltb 2 (length (c ∷ t)))) [
  | inl long ↦ hex_or_double c t type (text_eq (take 2 (c ∷ t)) (codes "0x")) (rw long at h)
  | inr short ↦ whole_number-HasNumberType c t type (rw short at h)
]

to_IsToken : (labels : List Text) (s t : Token) → ok s ≡ ok t → IsToken labels s → IsToken labels t
to_IsToken labels s t h = subst (IsToken labels) (ok-injective s t h)

-- A number in hexadecimal digits becomes one in decimal digits.
hex_to_decimal-IsToken :
    (labels : List Text) (value : Option ℕ) (type : TokenType) (t : Token)
    → ((n : Text) → IsDecimal n → HasType labels type n)
    → ((from_option exception value >>= λ n. ok (to_string n)) >>= λ s. ok (token s type)) ≡ ok t
    → IsToken labels t
hex_to_decimal-IsToken labels none type t f h = cc
hex_to_decimal-IsToken labels (some n) type t f h =
    to_IsToken labels (token (to_string n) type) t h (f (to_string n) (to_string-IsDecimal n))

convert_number :
    (labels : List Text) (arg : Text) (type : TokenType) (t : Token)
    → HasNumberType type arg
    → convert_token (token arg type) ≡ ok t
    → IsToken labels t
unfolding convert_token
convert_number labels arg unsigned_n t w h = to_IsToken labels (token arg unsigned_n) t h w
convert_number labels arg signed_n t w h = to_IsToken labels (token arg signed_n) t h w
convert_number labels arg hex_n t w h =
    hex_to_decimal-IsToken labels (stoull_hex arg) unsigned_n t (λ n d. d) h
convert_number labels arg double_n t w h = to_IsToken labels (token arg double_n) t h w
convert_number labels arg error_type t w h = absurd w
convert_number labels arg str t w h = absurd w
convert_number labels arg reg t w h = absurd w
convert_number labels arg fp_reg t w h = absurd w
convert_number labels arg stored_addr_reg t w h = absurd w
convert_number labels arg stored_addr_raw t w h = absurd w
convert_number labels arg label t w h = absurd w
convert_number labels arg safety_directive t w h = absurd w
convert_number labels arg memory_directive t w h = absurd w
convert_number labels arg type_quantifier t w h = absurd w

decimal_address-IsToken :
    (labels : List Text) (address : Text) (t : Token) (type : Option TokenType)
    → is_num address ≡ type
    → is_unsigned type ≡ true
    → decimal_address address type ≡ ok t
    → IsToken labels t
unfolding ◌is◌
decimal_address-IsToken labels address t none e u h = cc
decimal_address-IsToken labels address t (some hex_n) e u h =
    hex_to_decimal-IsToken labels (stoull_hex address) stored_addr_raw t (λ n d. d) h
decimal_address-IsToken labels address t (some unsigned_n) e u h =
    to_IsToken labels (token address stored_addr_raw) t h
      (is_num-HasNumberType address unsigned_n e)
decimal_address-IsToken labels address t (some other) e u h = cc

imm_addr-unsigned : (arg : Text) → is_imm_addr arg ≡ true → is_unsigned (is_num (inner arg)) ≡ true
unfolding is_imm_addr
imm_addr-unsigned arg h = (and-true (is_addr arg) _ h).1

convert_other :
    (labels : List Text) (arg : Text) (t : Token)
    → (tokenize_other labels arg >>= convert_token) ≡ ok t
    → IsToken labels t
unfolding tokenize_other convert_token convert_address
convert_other labels arg t h = elim (Bool-cases (is_str arg)) [
  | inl s ↦ to_IsToken labels (token arg str) t (rw s at h) s
  | inr a ↦ elim (Bool-cases (is_reg_addr arg)) [
    | inl s ↦ to_IsToken labels (token arg stored_addr_reg) t (rw (a, s) at h) s
    | inr b ↦ elim (Bool-cases (is_imm_addr arg)) [
      | inl s ↦
          decimal_address-IsToken labels (inner arg) t (is_num (inner arg)) refl
            (imm_addr-unsigned arg s) (rw (a, b, s) at h)
      | inr c ↦ elim (Bool-cases (is_tq arg)) [
        | inl s ↦ to_IsToken labels (token arg type_quantifier) t (rw (a, b, c, s) at h) s
        | inr d ↦ elim (Bool-cases (member labels arg)) [
          | inl s ↦ to_IsToken labels (token arg label) t (rw (a, b, c, d, s) at h) s
          | inr e ↦ let bad : exits unknown_type ≡ ok t = rw (a, b, c, d, e) at h in cc
        ]
      ]
    ]
  ]
]

convert_argument :
    (labels : List Text) (arg : Text) (t : Token)
    → (tokenize_argument labels arg >>= convert_token) ≡ ok t
    → IsToken labels t
unfolding tokenize_argument
convert_argument labels arg t h = elim (Bool-cases (member registers arg)) [
  | inl r ↦ to_IsToken labels (token arg reg) t (unfold convert_token in rw r at h) r
  | inr a ↦ elim (Bool-cases (member fp_regs arg)) [
    | inl r ↦ to_IsToken labels (token arg fp_reg) t (unfold convert_token in rw (a, r) at h) r
    | inr b ↦ by_number (is_num arg) refl (rw (a, b) at h)
  ]
]
  where
    by_number :
        (type : Option TokenType)
        → is_num arg ≡ type
        → ((elim type [ none ↦ tokenize_other labels arg | some t ↦ ok (token arg t) ])
            >>= convert_token)
          ≡ ok t
        → IsToken labels t
    by_number none e k = convert_other labels arg t k
    by_number (some type) e k = convert_number labels arg type t (is_num-HasNumberType arg type e) k

-- What the tokenizer makes of the arguments of an instruction: tokens of the types of arguments,
-- with numbers and addresses in decimal digits, and names of registers and labels that exist.
pub tokenize_arguments-IsToken :
    (labels args : List Text) (tokens : List Token)
    → tokenize_arguments labels args ≡ ok tokens
    → All (IsToken labels) tokens
unfolding tokenize_arguments
tokenize_arguments-IsToken labels [] tokens h =
    subst (All (IsToken labels)) (ok-injective [] tokens h) tt
tokenize_arguments-IsToken labels (arg ∷ rest) tokens h =
    let first = bind-ok (tokenize_argument labels arg) _ tokens h in
    let converted = bind-ok (convert_token first.0) _ tokens first.2 in
    let others = bind-ok (tokenize_arguments labels rest) _ tokens converted.2 in
    subst (All (IsToken labels)) (ok-injective (converted.0 ∷ others.0) tokens others.2) (
      convert_argument labels arg converted.0 (ap (λ r. r >>= convert_token) first.1 ∙ converted.1),
      tokenize_arguments-IsToken labels rest others.0 others.1,
    )
