-- ===== src/Bytes.antt =====
-- utility.h: numbers as arrays of bytes, and the compressed arrays of executable files.
-- A byte is a number below 256 and an array is the list of its elements.
pub mod Compressed
pub mod LittleEndian
pub mod Words
use virtual_processing_unit.Prelude.{
  ℕ, zero, suc, ◌+◌, ◌-◌, ◌*◌, ◌/◌, ◌%◌, ◌^◌, ◌<◌, bit_or, min, Option, none, some, List, [], ◌∷◌,
  ◌++◌, ltb, ◌==◌, if◌then◌else◌, length, get_or, take, drop, replicate,
}

-- `sizeof(size_t)`
abbrev pub word_size : ℕ
word_size = 8

abbrev pub size_mod : ℕ
size_mod = 2 ^ 64

-- `size_t` addition and subtraction
abbrev pub add64 : ℕ → ℕ → ℕ
add64 a b = (a + b) % size_mod

abbrev pub sub64 : ℕ → ℕ → ℕ
sub64 a b = (a + size_mod - b) % size_mod

abbrev pub IsByte : ℕ → Type 0
IsByte b = b < 256

-- The loop of `ULLTOA` for the `n` lowest bytes, highest first.
unfoldable pub be_bytes : ℕ → ℕ → List ℕ
be_bytes zero value = []
be_bytes (suc i) value = (value / 2 ^ (i * 8) % 256) ∷ be_bytes i value

unfoldable pub ulltoa : ℕ → List ℕ
unfolding be_bytes
ulltoa value = be_bytes word_size value

-- The loop of `ATOULL` with `n` rounds left.
unfoldable pub be_value : ℕ → List ℕ → ℕ → ℕ
be_value zero bytes ret = ret
be_value (suc i) bytes ret = be_value i (drop 1 bytes) (bit_or ret (get_or bytes 0 0 * 2 ^ (i * 8)))

unfoldable pub atoull : List ℕ → ℕ
unfolding be_value
atoull bytes = be_value word_size bytes 0

-- The low three bits select a quantifier: `VOPTTOTQ`. The mask 0xfff keeps a whole byte.
unfoldable pub vopt_to_tq : ℕ → ℕ
vopt_to_tq vopt =
    let lref = vopt % 0x1000 in
    if lref == 0
    then lref
    else if lref == 1
    then lref
    else if lref == 2
    then lref
    else if lref == 3
    then 4
    else if lref == 4
    then 8
    else 0

-- The first loop of `COMPBA`: how many zeros the array starts with.
unfoldable pub leading_zeros : List ℕ → ℕ
leading_zeros [] = 0
leading_zeros (b ∷ bytes) = let rest = leading_zeros bytes in if b == 0 then suc rest else 0

-- What an `unsigned char` keeps of the length of an array.
abbrev pub byte_length : List ℕ → ℕ
byte_length bytes = length bytes % 256

-- `COMPBA`, of as much of the array as its length, an `unsigned char`, says.
unfoldable pub compba : List ℕ → List ℕ
unfolding leading_zeros
compba ba =
    let data' = take (byte_length ba) ba in
    let zeros = leading_zeros data' in
    if ltb zeros (byte_length ba) then zeros ∷ drop zeros data' else zeros ∷ 0 ∷ []

-- The second loop of `EXTDBA`: `i + 1 < length && i + nZeros < baselen`.
copy_from : ℕ → List ℕ → List ℕ
copy_from zero bytes = []
copy_from (suc room) [] = []
copy_from (suc room) (b ∷ bytes) = b ∷ copy_from room bytes

-- `EXTDBA` where it has digits to copy. The new array is filled with zeros, then the digits are
-- copied behind the first `nZeros`. Without zeros and with a length that has wrapped round to 0, the
-- size of the new array is the largest number, and there is no such array.
unfoldable pub extend_digits : (zeros size : ℕ) → List ℕ → Option (List ℕ)
unfolding copy_from
extend_digits zeros size digits =
    if zeros + size == 0
    then none
    else (let baselen = zeros + size - 1 in
        let first = min zeros baselen in
        let copied = copy_from (baselen - zeros) (take (size - 1) digits) in
        some (replicate first 0 ++ copied ++ replicate (baselen - first - length copied) 0))

-- `EXTDBA`. An array of fewer than two elements is read behind its end.
unfoldable pub extdba : List ℕ → Option (List ℕ)
unfolding extend_digits
extdba [] = none
extdba (count ∷ []) = none
extdba (count ∷ d ∷ rest) =
    if d == 0
    then some (replicate count 0)
    else extend_digits count (byte_length (count ∷ d ∷ rest)) (d ∷ rest)

-- `mp_memcpy` of an array into a `size_t`, on a machine of little-endian order.
unfoldable pub le_value : List ℕ → ℕ
le_value [] = 0
le_value (b ∷ bytes) = b + 256 * le_value bytes

-- `mp_memcpy` of a `size_t` into an array.
unfoldable pub le_bytes : ℕ → ℕ → List ℕ
le_bytes zero value = []
le_bytes (suc n) value = (value % 256) ∷ le_bytes n (value / 256)
