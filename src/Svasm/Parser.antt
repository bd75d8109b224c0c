-- ===== src/Svasm/Parser.antt =====
-- SVASM/Assembler/parser.cpp: from the text of a file to instructions with their arguments.
pub mod Lines
pub mod RoundTrip
use virtual_processing_unit.Prelude.{
  ℕ, ◌+◌, ◌-◌, Bool, true, false, not, ◌&&◌, ◌||◌, Option, none, some, List, [], ◌∷◌, ◌++◌, ◌==◌,
  if◌then◌else◌, take, length,
}
use virtual_processing_unit.Text.{Text}
use virtual_processing_unit.Svasm.{
  Svas, ok, exits, ◌>>=◌, file_error, empty_file, extra_comma, undefined,
}

-- `codeline`.
pub record Codeline : Type 0 where
  pub instruction : Text
  pub arguments : List Text

abbrev pub is_empty {ℓ} : {A : Type ℓ} → List A → Bool
is_empty [] = true
is_empty (x ∷ xs) = false

-- `std::getline` until the stream is at its end.
unfoldable pub cons_head : ℕ → List Text → List Text
cons_head c [] = (c ∷ []) ∷ []
cons_head c (l ∷ ls) = (c ∷ l) ∷ ls

unfoldable pub split_lines : Text → List Text
unfolding cons_head
split_lines [] = []
split_lines (c ∷ t) = let rest = split_lines t in if c == b'\n' then [] ∷ rest else cons_head c rest

-- A line that is skipped: an empty one, or a comment.
unfoldable pub is_skipped : Text → Bool
is_skipped [] = true
is_skipped (c ∷ line) = c == b';'

-- The loop of `fetch_lines` with `lines.size()` and `n_emlines`: each line with its number, the
-- entry of `vline_rline`.
unfoldable pub fetch_loop : List Text → ℕ → ℕ → List (Text × ℕ)
unfolding is_skipped
fetch_loop [] size n_emlines = []
fetch_loop (line ∷ rest) size n_emlines =
    let skip = fetch_loop rest size (n_emlines + 1) in
    let keep = (line, size + n_emlines) ∷ fetch_loop rest (size + 1) n_emlines in
    if is_skipped line then skip else keep

-- `fetch_lines`.
unfoldable pub fetch_lines : Text → Svas (List (Text × ℕ))
unfolding fetch_loop split_lines
fetch_lines content =
    if is_empty content then exits empty_file else ok (fetch_loop (split_lines content) 0 1)

-- How the loop over the instruction ends: at a space, with what follows it, at a colon, or at the
-- end of the line.
pub data Head : Type 0 where
  at_space : Text → Text → Head
  at_colon at_end : Text → Head

unfoldable pub scan_instruction : Text → Text → Head
scan_instruction [] temp = at_end temp
scan_instruction (c ∷ rest) temp =
    let next = scan_instruction rest (temp ++ c ∷ []) in
    if c == b' ' then at_space temp rest else if c == b':' then at_colon (temp ++ c ∷ []) else next

-- The state of the loop over the arguments. `skipping` holds in the inner loop over the spaces
-- behind a comma; `prev` is `line[i - 1]`.
pub record Scan : Type 0 where
  pub skipping : Bool
  pub prev : ℕ
  pub isstring : Bool
  pub temp : Text
  pub args : List Text

abbrev pub start_scan : Scan
start_scan = record { skipping = false; prev = b' '; isstring = false; temp = []; args = [] }

-- After a quotation mark.
abbrev pub toggle : Bool → ℕ → Bool
toggle isstring prev = isstring && prev == b'\\'

abbrev pub scan_char : Scan → ℕ → Scan
scan_char s c =
    if s.skipping && c == b' '
    then record s { prev = c }
    else if c == b',' && not s.isstring
    then record s { skipping = true; prev = c; temp = []; args = s.args ++ s.temp ∷ [] }
    else record s {
      skipping = false;
      prev = c;
      isstring = if c == b'"' then not s.isstring || toggle s.isstring s.prev else s.isstring;
      temp = s.temp ++ c ∷ [];
    }

abbrev pub last_argument : Scan → List Text
last_argument s = if is_empty s.temp then s.args else s.args ++ s.temp ∷ []

unfoldable pub scan_arguments : Text → Scan → Svas (List Text)
scan_arguments [] s = ok (last_argument s)
scan_arguments (c ∷ rest) s =
    let next = scan_arguments rest (scan_char s c) in
    if c == 0
    then ok (last_argument s)
    else if c == b',' && (not s.isstring && is_empty rest)
    then exits extra_comma
    else next

abbrev pub codeline : Text → List Text → Codeline
codeline instruction arguments = record { instruction = instruction; arguments = arguments }

abbrev pub parse_arguments : Head → Svas Codeline
parse_arguments (at_space temp rest) = do
  arguments ← scan_arguments rest start_scan
  ok (codeline temp arguments)
parse_arguments (at_colon temp) = ok (codeline temp [])
parse_arguments (at_end temp) = ok (codeline temp [])

-- `parse_line`.
unfoldable pub parse_line : Text → Svas Codeline
unfolding scan_instruction scan_arguments
parse_line line = parse_arguments (scan_instruction line [])

-- `back()`, undefined on an empty text.
abbrev pub back : Text → Option ℕ
back [] = none
back (c ∷ []) = some c
back (c ∷ d ∷ t) = back (d ∷ t)

-- `substr(0, size() - 1)`.
abbrev pub without_last : Text → Text
without_last t = take (length t - 1) t

-- The test for a label's definition.
unfoldable pub is_labeldef : Codeline → Svas Bool
is_labeldef parsed = elim (back parsed.instruction) [
  | none ↦ exits undefined
  | some c ↦ ok (c == b':' && is_empty parsed.arguments)
]

-- The loop of `main_parse`, with the labels that the lines define.
unfoldable pub parse_lines : List (Text × ℕ) → Svas (List Codeline × List Text)
unfolding parse_line is_labeldef
parse_lines [] = ok ([], [])
parse_lines ((line, nline) ∷ rest) = do
  parsed ← parse_line line
  labeldef ← is_labeldef parsed
  others ← parse_lines rest
  ok (parsed ∷ others.0, if labeldef then without_last parsed.instruction ∷ others.1 else others.1)

-- `main_parse`, over what the file holds, if it can be opened.
unfoldable pub main_parse : Option Text → Svas (List Codeline × List Text)
unfolding fetch_lines parse_lines
main_parse none = exits file_error
main_parse (some file_content) = do lines ← fetch_lines file_content; parse_lines lines
