-- ===== src/Text.antt =====
-- Texts of the assembler as their character codes, with what its sources use of the standard
-- library.
pub mod Numbers
use Prim.Native.Char.{code}
use Prim.Native.String.{String}
use virtual_processing_unit.Prelude.{
  ℕ, zero, suc, ◌+◌, ◌-◌, ◌*◌, ◌/◌, ◌%◌, ◌^◌, ◌≡◌, refl, Bool, true, false, ◌&&◌, ◌||◌, Option,
  none, some, List, [], ◌∷◌, ltb, leb, ◌==◌, if◌then◌else◌, arith,
}

abbrev pub Text : Type 0
Text = List ℕ

abbrev pub codes : String → Text
codes String.[] = []
codes (String.◌∷◌ c s) = code c ∷ codes s

-- `operator==` on `std::string`.
unfoldable pub text_eq : Text → Text → Bool
text_eq [] [] = true
text_eq [] (d ∷ u) = false
text_eq (c ∷ t) [] = false
text_eq (c ∷ t) (d ∷ u) = let rest = text_eq t u in if c == d then rest else false

pub text_eq_refl : (t : Text) → text_eq t t ≡ true
unfolding text_eq
text_eq_refl [] = refl
text_eq_refl (c ∷ t) = ground (arith, text_eq_refl t)

pub eq_of_text_eq : (t u : Text) → text_eq t u ≡ true → t ≡ u
unfolding text_eq
eq_of_text_eq [] [] h = refl
eq_of_text_eq [] (d ∷ u) h = ground arith
eq_of_text_eq (c ∷ t) [] h = ground arith
eq_of_text_eq (c ∷ t) (d ∷ u) h = ground (arith, eq_of_text_eq t u)

-- `find(s) != end()` on a set of texts.
unfoldable pub member : List Text → Text → Bool
unfolding text_eq
member [] s = false
member (t ∷ rest) s = let found = member rest s in if text_eq t s then true else found

-- `at(s)` on a map with keys that are texts.
unfoldable pub lookup {ℓ} : {V : Type ℓ} → List (Text × V) → Text → Option V
unfolding text_eq
lookup [] s = none
lookup ((k, v) ∷ rest) s = let found = lookup rest s in if text_eq k s then some v else found

-- `std::isdigit`
unfoldable pub is_digit : ℕ → Bool
is_digit c = leb b'0' c && leb c b'9'

-- A loop that returns false at the first character that fails.
unfoldable pub all_chars : (ℕ → Bool) → Text → Bool
all_chars test [] = true
all_chars test (c ∷ t) = let rest = all_chars test t in if test c then rest else false

-- The digits of a number, as `std::to_string` prints it; the fuel is the number itself.
unfoldable pub digits_from : ℕ → ℕ → Text → Text
digits_from zero n acc = (b'0' + n % 10) ∷ acc
digits_from (suc fuel) n acc =
    let acc' = (b'0' + n % 10) ∷ acc in
    let rest = digits_from fuel (n / 10) acc' in if n / 10 == 0 then acc' else rest

-- The loop of `std::stoull` over the digits at the front of a text.
unfoldable pub number_from : Text → ℕ → ℕ
unfolding is_digit
number_from [] acc = acc
number_from (c ∷ t) acc =
    let rest = number_from t (acc * 10 + (c - b'0')) in if is_digit c then rest else acc

unfoldable pub to_string : ℕ → Text
unfolding digits_from
to_string n = digits_from n n []

-- `std::isspace` in the C locale, and the white space that `std::stoull` skips.
unfoldable pub is_space : ℕ → Bool
is_space c = c == 32 || (leb 9 c && leb c 13)

unfoldable pub skip_spaces : Text → Text
unfolding is_space
skip_spaces [] = []
skip_spaces (c ∷ t) = let rest = skip_spaces t in if is_space c then rest else c ∷ t

-- The magnitude behind the sign: `none` where no digit stands first, an exception.
magnitude : Text → Option ℕ
magnitude [] = none
magnitude (c ∷ t) = if is_digit c then some (number_from (c ∷ t) 0) else none

-- `std::stoull`: a number past 2^64 - 1 is an exception, and a minus sign negates in `size_t`.
unsigned_text : Text → Option ℕ
unsigned_text [] = none
unsigned_text (c ∷ t) =
    let negative = c == b'-' in
    let digits = if negative || c == b'+' then t else c ∷ t in
    elim (magnitude digits) [
      | none ↦ none
      | some n ↦
          if ltb n (2 ^ 64) then some (if negative then (2 ^ 64 - n) % 2 ^ 64 else n) else none
    ]

unfoldable pub stoull : Text → Option ℕ
unfolding unsigned_text magnitude number_from is_digit skip_spaces
stoull t = unsigned_text (skip_spaces t)

-- `std::isxdigit`
unfoldable pub is_xdigit : ℕ → Bool
unfolding is_digit
is_xdigit c = is_digit c || (leb b'a' c && leb c b'f') || (leb b'A' c && leb c b'F')

abbrev pub hex_digit : ℕ → ℕ
hex_digit c = if leb b'a' c then c - b'a' + 10 else if leb b'A' c then c - b'A' + 10 else c - b'0'

unfoldable pub hex_from : Text → ℕ → ℕ
unfolding is_xdigit
hex_from [] acc = acc
hex_from (c ∷ t) acc =
    let rest = hex_from t (acc * 16 + hex_digit c) in if is_xdigit c then rest else acc

-- `std::stoull(t, 0, 0x10)` on a text that begins with `0x` and a hexadecimal digit.
unfoldable pub stoull_hex : Text → Option ℕ
unfolding hex_from
stoull_hex (zero_char ∷ x_char ∷ t) =
    let n = hex_from t 0 in if ltb n (2 ^ 64) then some n else none
stoull_hex t = none

-- `(size_t)std::stoll(t)`: the two's complement of a number from -2^63 to 2^63 - 1.
signed_text : Text → Option ℕ
signed_text [] = none
signed_text (c ∷ t) =
    let negative = c == b'-' in
    let digits = if negative || c == b'+' then t else c ∷ t in
    elim (magnitude digits) [
      | none ↦ none
      | some n ↦
          if negative
          then (if leb n (2 ^ 63) then some ((2 ^ 64 - n) % 2 ^ 64) else none)
          else (if ltb n (2 ^ 63) then some n else none)
    ]

unfoldable pub stoll : Text → Option ℕ
unfolding signed_text magnitude number_from is_digit skip_spaces
stoll t = signed_text (skip_spaces t)

-- `stream >> n` for a `uint64_t`: 0 where no number stands, and the largest where it does not fit.
stream_unsigned_text : Text → ℕ
stream_unsigned_text [] = 0
stream_unsigned_text (c ∷ t) =
    let negative = c == b'-' in
    let digits = if negative || c == b'+' then t else c ∷ t in
    elim (magnitude digits) [
      | none ↦ 0
      | some n ↦
          if ltb n (2 ^ 64) then (if negative then (2 ^ 64 - n) % 2 ^ 64 else n) else 2 ^ 64 - 1
    ]

unfoldable pub stream_unsigned : Text → ℕ
unfolding stream_unsigned_text magnitude number_from is_digit skip_spaces
stream_unsigned t = stream_unsigned_text (skip_spaces t)

-- `stream >> n` for an `int64_t`, as its two's complement.
stream_signed_text : Text → ℕ
stream_signed_text [] = 0
stream_signed_text (c ∷ t) =
    let negative = c == b'-' in
    let digits = if negative || c == b'+' then t else c ∷ t in
    elim (magnitude digits) [
      | none ↦ 0
      | some n ↦
          if negative
          then (if leb n (2 ^ 63) then (2 ^ 64 - n) % 2 ^ 64 else 2 ^ 63)
          else (if ltb n (2 ^ 63) then n else 2 ^ 63 - 1)
    ]

unfoldable pub stream_signed : Text → ℕ
unfolding stream_signed_text magnitude number_from is_digit skip_spaces
stream_signed t = stream_signed_text (skip_spaces t)

-- `stream << n` for a `long long` with these bits.
unfoldable pub signed_to_string : ℕ → Text
unfolding to_string
signed_to_string n = if ltb n (2 ^ 63) then to_string n else b'-' ∷ to_string (2 ^ 64 - n)
