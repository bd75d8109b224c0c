-- ===== src/Svasm/Parser/RoundTrip.antt =====
-- SVASM/Assembler/parser.cpp, `parse_line`: lines as they are written, and what is read from them.
use virtual_processing_unit.Prelude.{
  ℕ, ◌≡◌, ◌≢◌, refl, ap, ◌∙◌, arith, Bool, true, false, not, ◌&&◌, ◌||◌, List, [], ◌∷◌, ◌++◌, ◌==◌,
  if◌then◌else◌, Bool-cases, inl, inr, All, append-nil, append_assoc, not-true, and-true,
}
use virtual_processing_unit.Text.{Text}
use virtual_processing_unit.Svasm.{Svas, ok, ◌>>=◌}
use virtual_processing_unit.Svasm.Parser.{
  codeline, is_empty, at_space, at_end, scan_instruction, Scan, toggle, scan_arguments,
  parse_arguments, parse_line,
}

-- No space and no colon.
abbrev pub IsWord : Text → Type 0
IsWord = All (λ c. (c ≢ b' ') × (c ≢ b':'))

-- Read from where `isstring` and `prev` hold, the quotation marks are closed at the end, no comma
-- stands outside of them, and no character is 0.
abbrev pub is_closed : Bool → ℕ → Text → Bool
is_closed isstring prev [] = not isstring
is_closed isstring prev (c ∷ t) =
    let rest =
      is_closed (if c == b'"' then not isstring || toggle isstring prev else isstring) c t in
    not (c == 0) && (isstring || not (c == b',')) && rest

-- An argument that does not begin with a space.
abbrev pub IsArgument : Text → Type 0
IsArgument [] = ⊥
IsArgument (c ∷ t) = (c ≢ b' ') × (is_closed false b' ' (c ∷ t) ≡ true)

abbrev pub print_more : List Text → Text
print_more [] = []
print_more (a ∷ others) = b',' ∷ b' ' ∷ a ++ print_more others

-- A line as it is written.
abbrev pub print_codeline : Text → List Text → Text
print_codeline instruction [] = instruction
print_codeline instruction (a ∷ others) = instruction ++ (b' ' ∷ (a ++ print_more others))

scan_instruction-space :
    (w temp rest : Text)
    → IsWord w
    → scan_instruction (w ++ b' ' ∷ rest) temp ≡ at_space (temp ++ w) rest
unfolding scan_instruction
scan_instruction-space [] temp rest h = rw append-nil
scan_instruction-space (c ∷ w) temp rest h = elim (Bool-cases (c == b' ')) [
  | inl space ↦ absurd (ground arith)
  | inr letter ↦ elim (Bool-cases (c == b':')) [
    | inl colon ↦ absurd (ground arith)
    | inr other ↦
        rw (letter, other)
          (scan_instruction-space w (temp ++ c ∷ []) rest h.1
            ∙ ap (λ t. at_space t rest) (append_assoc temp (c ∷ []) w))
  ]
]

scan_instruction-end : (w temp : Text) → IsWord w → scan_instruction w temp ≡ at_end (temp ++ w)
unfolding scan_instruction
scan_instruction-end [] temp h = rw append-nil
scan_instruction-end (c ∷ w) temp h = elim (Bool-cases (c == b' ')) [
  | inl space ↦ absurd (ground arith)
  | inr letter ↦ elim (Bool-cases (c == b':')) [
    | inl colon ↦ absurd (ground arith)
    | inr other ↦
        rw (letter, other)
          (scan_instruction-end w (temp ++ c ∷ []) h.1 ∙ ap at_end (append_assoc temp (c ∷ []) w))
  ]
]

abbrev scan : Bool → ℕ → Bool → Text → List Text → Scan
scan skipping prev isstring temp args = record {
  skipping = skipping;
  prev = prev;
  isstring = isstring;
  temp = temp;
  args = args;
}

abbrev quoted : ℕ → Bool → ℕ → Bool
quoted prev isstring c = if c == b'"' then not isstring || toggle isstring prev else isstring

scan_arguments-char :
    (c : ℕ) (rest : Text) (prev : ℕ) (isstring : Bool) (temp : Text) (args : List Text)
    → (c == 0) ≡ false
    → (isstring || not (c == b',')) ≡ true
    → scan_arguments (c ∷ rest) (scan false prev isstring temp args)
      ≡ scan_arguments rest (scan false c (quoted prev isstring c) (temp ++ c ∷ []) args)
unfolding scan_arguments
scan_arguments-char c rest prev true temp args h k = elim (Bool-cases (c == b',')) [
  | inl comma ↦ rw (h, comma)
  | inr other ↦ rw (h, other)
]
scan_arguments-char c rest prev false temp args h k = rw (h, not-true (c == b',') k)

-- An argument is read whole, up to what follows it.
scan_arguments-closed :
    (a rest : Text) (prev : ℕ) (isstring : Bool) (temp : Text) (args : List Text)
    → is_closed isstring prev a ≡ true
    → (p : ℕ) × (scan_arguments (a ++ rest) (scan false prev isstring temp args)
        ≡ scan_arguments rest (scan false p false (temp ++ a) args))
scan_arguments-closed [] rest prev isstring temp args h =
    (prev, rw (not-true isstring h, append-nil temp))
scan_arguments-closed (c ∷ a) rest prev isstring temp args h =
    let fine =
      and-true (not (c == 0) && (isstring || not (c == b',')))
        (is_closed (quoted prev isstring c) c a) h in
    let free = and-true (not (c == 0)) (isstring || not (c == b',')) fine.0 in
    let more =
      scan_arguments-closed a rest c (quoted prev isstring c) (temp ++ c ∷ []) args fine.1 in
    (
      more.0,
      scan_arguments-char c (a ++ rest) prev isstring temp args (not-true (c == 0) free.0) free.1
          ∙ more.1
          ∙ ap (λ t. scan_arguments rest (scan false more.0 false t args))
              (append_assoc temp (c ∷ []) a),
    )

-- Behind a comma, a character that is not a space is read as at the beginning.
scan_arguments-skipping :
    (c : ℕ) (a : Text) (prev p : ℕ) (args : List Text)
    → c ≢ b' '
    → scan_arguments (c ∷ a) (scan true prev false [] args)
      ≡ scan_arguments (c ∷ a) (scan false p false [] args)
unfolding scan_arguments
scan_arguments-skipping c a prev p args h = elim (Bool-cases (c == b' ')) [
  | inl space ↦ absurd (ground arith)
  | inr letter ↦ elim (Bool-cases (c == b'"')) [
    | inl quote ↦ rw (letter, quote)
    | inr other ↦ rw (letter, other)
  ]
]

-- The comma and the space between two arguments.
scan_arguments-comma :
    (c : ℕ) (rest temp : Text) (prev : ℕ) (args : List Text)
    → scan_arguments (b',' ∷ b' ' ∷ c ∷ rest) (scan false prev false temp args)
      ≡ scan_arguments (c ∷ rest) (scan true b' ' false [] (args ++ temp ∷ []))
unfolding scan_arguments
scan_arguments-comma c rest temp prev args = refl

last_argument-cons : (c : ℕ) (temp : Text) → is_empty (c ∷ temp) ≡ false
last_argument-cons c temp = refl

scan_arguments-print_more :
    (c : ℕ) (a : Text) (others : List Text) (prev : ℕ) (args : List Text)
    → All IsArgument others
    → scan_arguments (print_more others) (scan false prev false (c ∷ a) args)
      ≡ ok (args ++ (c ∷ a) ∷ others)
unfolding scan_arguments
scan_arguments-print_more c a [] prev args h = refl
scan_arguments-print_more c a ([] ∷ others) prev args h = absurd h.0
scan_arguments-print_more c a ((d ∷ b) ∷ others) prev args h =
    let more =
      scan_arguments-closed (d ∷ b) (print_more others) b' ' false [] (args ++ (c ∷ a) ∷ [])
        h.0.1 in
    scan_arguments-comma d (b ++ print_more others) (c ∷ a) prev args
    ∙ scan_arguments-skipping d (b ++ print_more others) b' ' b' ' (args ++ (c ∷ a) ∷ []) h.0.0
    ∙ more.1
    ∙ scan_arguments-print_more d b others more.0 (args ++ (c ∷ a) ∷ []) h.1
    ∙ ap ok (append_assoc args ((c ∷ a) ∷ []) ((d ∷ b) ∷ others))

-- A line that is written with a comma and a space between its arguments is read back, commas
-- inside of string literals included, if its instruction has no space or colon and no argument is
-- empty, begins with a space, has a comma outside of quotation marks or leaves them open.
pub parse_line-print_codeline :
    (instruction : Text) (arguments : List Text)
    → IsWord instruction
    → All IsArgument arguments
    → parse_line (print_codeline instruction arguments) ≡ ok (codeline instruction arguments)
unfolding parse_line
parse_line-print_codeline w [] h k = ap parse_arguments (scan_instruction-end w [] h)
parse_line-print_codeline w ([] ∷ others) h k = absurd k.0
parse_line-print_codeline w ((c ∷ a) ∷ others) h k =
    let first = scan_arguments-closed (c ∷ a) (print_more others) b' ' false [] [] k.0.1 in
    ap parse_arguments (scan_instruction-space w [] ((c ∷ a) ++ print_more others) h)
    ∙ ap (λ (r : Svas (List Text)). r >>= λ arguments. ok (codeline w arguments))
        (first.1 ∙ scan_arguments-print_more c a others first.0 [] k.1)
