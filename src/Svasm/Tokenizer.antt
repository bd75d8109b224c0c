-- ===== src/Svasm/Tokenizer.antt =====
-- SVASM/Assembler/tokenizer.cpp: the types of arguments, and directives.
pub mod Types
pub mod Numbers
use virtual_processing_unit.Prelude.{
  ℕ, zero, suc, ◌+◌, ◌-◌, Bool, true, false, not, ◌&&◌, ◌||◌, Option, none, some, List, [], ◌∷◌,
  ◌++◌, ◌==◌, leb, ltb, if◌then◌else◌, take, drop, length,
}
use virtual_processing_unit.Text.{
  Text, codes, text_eq, member, is_digit, all_chars, is_xdigit, to_string, stoull, stoull_hex,
}
use virtual_processing_unit.Svasm.{
  TokenType, unsigned_n, signed_n, hex_n, double_n, str, reg, fp_reg, stored_addr_reg,
  stored_addr_raw, label, safety_directive, memory_directive, type_quantifier, ◌is◌, Token, Svas,
  ok, exits, ◌>>=◌, from_option, unknown_type, argv_error, exception, undefined,
}
use virtual_processing_unit.Svasm.Parser.{Codeline, is_empty, back, without_last}

abbrev pub registers : List Text
registers =
    codes "ax"
    ∷ codes "bx"
    ∷ codes "cx"
    ∷ codes "dx"
    ∷ codes "eax"
    ∷ codes "ebx"
    ∷ codes "ecx"
    ∷ codes "edx"
    ∷ codes "rax"
    ∷ codes "rbx"
    ∷ codes "rcx"
    ∷ codes "rdx"
    ∷ codes "rbp"
    ∷ codes "rsp"
    ∷ codes "cr"
    ∷ []

abbrev pub fp_regs : List Text
fp_regs =
    codes "fpr0"
    ∷ codes "fpr1"
    ∷ codes "fpr2"
    ∷ codes "fpr3"
    ∷ codes "efpr0"
    ∷ codes "efpr1"
    ∷ codes "efpr2"
    ∷ codes "efpr3"
    ∷ codes "rfpr0"
    ∷ codes "rfpr1"
    ∷ codes "rfpr2"
    ∷ codes "rfpr3"
    ∷ []

-- The loop of `isNum` that counts points: `none` where it returns false.
unfoldable pub count_points : Text → ℕ → Option ℕ
unfolding is_digit
count_points [] points = some points
count_points (c ∷ t) points =
    let next = count_points t (if c == b'.' then points + 1 else points) in
    if is_digit c
    then next
    else if c == b'.'
    then (if ltb 1 (points + 1) then none else next)
    else if not (c == b'-')
    then none
    else next

-- The end of `isNum`: a whole number.
unfoldable pub whole_number : Text → Option TokenType
unfolding all_chars is_digit
whole_number [] = some unsigned_n
whole_number (c ∷ t) =
    if c == b'-'
    then (if is_empty t then none else if all_chars is_digit t then some signed_n else none)
    else (if all_chars is_digit (c ∷ t) then some unsigned_n else none)

abbrev pub number_or_double : Text → Option ℕ → Option TokenType
number_or_double s none = none
number_or_double s (some zero) = whole_number s
number_or_double s (some (suc points)) = some double_n

-- `isNum`: the type, or `none` where it returns false.
unfoldable pub is_num : Text → Option TokenType
unfolding count_points whole_number text_eq all_chars is_xdigit
is_num s =
    if is_empty s
    then none
    else if ltb 2 (length s)
    then (if text_eq (take 2 s) (codes "0x")
        then (if all_chars is_xdigit (drop 2 s) then some hex_n else none)
        else number_or_double s (count_points s 0))
    else whole_number s

abbrev pub is_char : Option ℕ → ℕ → Bool
is_char none d = false
is_char (some c) d = c == d

abbrev pub front : Text → Option ℕ
front [] = none
front (c ∷ t) = some c

-- `isStr`.
unfoldable pub is_str : Text → Bool
is_str s = leb 2 (length s) && (is_char (front s) b'"' && is_char (back s) b'"')

-- `isAddr`.
unfoldable pub is_addr : Text → Bool
is_addr s = leb 3 (length s) && (is_char (front s) b'[' && is_char (back s) b']')

-- `substr(1, size() - 2)`.
abbrev pub inner : Text → Text
inner s = take (length s - 2) (drop 1 s)

-- `isRegAddr`.
unfoldable pub is_reg_addr : Text → Bool
unfolding is_addr member text_eq
is_reg_addr s = is_addr s && (member registers (inner s) && not (text_eq (inner s) (codes "cr")))

abbrev pub is_unsigned : Option TokenType → Bool
is_unsigned none = false
is_unsigned (some t) = t is hex_n || t is unsigned_n

-- `isImmAddr`.
unfoldable pub is_imm_addr : Text → Bool
unfolding is_addr is_num ◌is◌
is_imm_addr s = is_addr s && is_unsigned (is_num (inner s))

abbrev pub type_quantifiers : List Text
type_quantifiers =
    codes "QWORD"
    ∷ codes "qword"
    ∷ codes "DWORD"
    ∷ codes "dword"
    ∷ codes "WORD"
    ∷ codes "word"
    ∷ codes "BYTE"
    ∷ codes "byte"
    ∷ []

-- `isTQ`.
unfoldable pub is_tq : Text → Bool
unfolding member
is_tq = member type_quantifiers

abbrev pub token : Text → TokenType → Token
token element type = record { element = element; type = type }

-- The tests of `tokenizeArgument` behind `isNum`.
unfoldable pub tokenize_other : List Text → Text → Svas Token
unfolding is_str is_reg_addr is_imm_addr is_tq member
tokenize_other labels arg =
    if is_str arg
    then ok (token arg str)
    else if is_reg_addr arg
    then ok (token arg stored_addr_reg)
    else if is_imm_addr arg
    then ok (token arg stored_addr_raw)
    else if is_tq arg
    then ok (token arg type_quantifier)
    else if member labels arg
    then ok (token arg label)
    else exits unknown_type

-- `tokenizeArgument`.
unfoldable pub tokenize_argument : List Text → Text → Svas Token
unfolding member is_num tokenize_other
tokenize_argument labels arg =
    if member registers arg
    then ok (token arg reg)
    else if member fp_regs arg
    then ok (token arg fp_reg)
    else elim (is_num arg) [ none ↦ tokenize_other labels arg | some t ↦ ok (token arg t) ]

-- `std::to_string(std::stoull(hex, 0, 0x10))`.
abbrev pub hex_to_decimal : Text → Svas Text
hex_to_decimal hex = do n ← from_option exception (stoull_hex hex); ok (to_string n)

abbrev pub decimal_address : Text → Option TokenType → Svas Token
decimal_address address (some hex_n) = do n ← hex_to_decimal address; ok (token n stored_addr_raw)
decimal_address address other = ok (token address stored_addr_raw)

-- A stored address loses its brackets, and its number becomes decimal.
unfoldable pub convert_address : Text → Svas Token
unfolding is_num
convert_address address = decimal_address address (is_num address)

unfoldable pub convert_token : Token → Svas Token
unfolding convert_address ◌is◌
convert_token targ =
    if targ.type is hex_n
    then (do n ← hex_to_decimal targ.element; ok (token n unsigned_n))
    else if targ.type is stored_addr_raw
    then convert_address (inner targ.element)
    else ok targ

-- The loop of `tokenizeCodeline`.
unfoldable pub tokenize_arguments : List Text → List Text → Svas (List Token)
unfolding tokenize_argument convert_token
tokenize_arguments labels [] = ok []
tokenize_arguments labels (arg ∷ rest) = do
  targ ← tokenize_argument labels arg
  converted ← convert_token targ
  others ← tokenize_arguments labels rest
  ok (converted ∷ others)

-- `tokenized`.
pub record Tokenized : Type 0 where
  pub instruction : Text
  pub arguments : List Token

abbrev pub tokenized : Text → List Token → Tokenized
tokenized instruction arguments = record { instruction = instruction; arguments = arguments }

-- The size that `#resmem` asks for.
unfoldable pub resmem_size : Text → Svas ℕ
unfolding is_num
resmem_size arg = elim (is_num arg) [
  | none ↦ exits argv_error
  | some hex_n ↦ from_option exception (stoull_hex arg)
  | some unsigned_n ↦ from_option exception (stoull arg)
  | some other ↦ exits argv_error
]

-- The token that the branch for `#resmem` puts in front of the arguments; the branch does not
-- return, so the arguments follow and the instruction keeps its name.
unfoldable pub resmem_tokens : Text → List Text → Svas (List Token)
unfolding resmem_size text_eq
resmem_tokens instruction (arg ∷ []) =
    if text_eq instruction (codes "#resmem")
    then (do new_size ← resmem_size arg; ok (token (to_string new_size) memory_directive ∷ []))
    else ok []
resmem_tokens instruction arguments = ok []

-- `tokenizeCodeline`, with the last character of the instruction.
unfoldable pub tokenize_by_last : List Text → Codeline → Option ℕ → Svas Tokenized
unfolding tokenize_arguments resmem_tokens text_eq
tokenize_by_last labels parsed none = exits undefined
tokenize_by_last labels parsed (some c) =
    if c == b':' && is_empty parsed.arguments
    then ok (tokenized (codes "[labeldef]") (token (without_last parsed.instruction) label ∷ []))
    else if (text_eq parsed.instruction (codes "#safe")
          || text_eq parsed.instruction (codes "#unsafe"))
        && is_empty parsed.arguments
    then ok (
        tokenized (codes "[safety_control]")
          (token (drop 1 parsed.instruction) safety_directive ∷ []))
    else (do
      memory ← resmem_tokens parsed.instruction parsed.arguments
      arguments ← tokenize_arguments labels parsed.arguments
      ok (tokenized parsed.instruction (memory ++ arguments)))

-- `tokenizeCodeline`.
unfoldable pub tokenize_codeline : List Text → Codeline → Svas Tokenized
unfolding tokenize_by_last
tokenize_codeline labels parsed = tokenize_by_last labels parsed (back parsed.instruction)

-- `tokenizer`.
unfoldable pub tokenizer : List Text → List Codeline → Svas (List Tokenized)
unfolding tokenize_codeline
tokenizer labels [] = ok []
tokenizer labels (parsed ∷ rest) = do
  temp ← tokenize_codeline labels parsed
  others ← tokenizer labels rest
  ok (temp ∷ others)
