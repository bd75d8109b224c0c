-- ===== src/Bytes/LittleEndian.antt =====
-- utility.h and `std::memcpy`: the bytes of a word, lowest first, as they lie in memory.
use virtual_processing_unit.Prelude.{ℕ, zero, suc, ◌/◌, ◌<◌, ◌≡◌, refl, reverse, arith, length}
use virtual_processing_unit.Bytes.{be_bytes, le_value, le_bytes, size_mod}

-- A copy of the bytes of a word from the lowest on is the word.
pub le_value-le_bytes : (v : ℕ) → v < size_mod → le_value (le_bytes 8 v) ≡ v
unfolding le_value le_bytes
le_value-le_bytes v h = omega arith

-- The bytes from the highest on, turned round, are the bytes from the lowest on.
pub reverse-be_bytes : (v : ℕ) → v < size_mod → le_value (reverse (be_bytes 8 v)) ≡ v
unfolding le_value be_bytes
reverse-be_bytes v h = omega arith

pub length-be_bytes8 : (v : ℕ) → length (be_bytes 8 v) ≡ 8
unfolding be_bytes
length-be_bytes8 v = refl

pub length-le_bytes : (n v : ℕ) → length (le_bytes n v) ≡ n
unfolding le_bytes
length-le_bytes zero v = refl
length-le_bytes (suc n) v = omega (arith, length-le_bytes n (v / 256))
