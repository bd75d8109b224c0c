-- ===== src/Tests/Bytes.antt =====
-- Bytes at concrete inputs.
use virtual_processing_unit.Prelude.{◌≡◌, refl, arith, none, some, replicate, List, [], ◌∷◌, ℕ}
use virtual_processing_unit.Bytes.{atoull, compba, extdba, be_value, leading_zeros}
use virtual_processing_unit.Bytes.Compressed.{extdba-compba}

abbrev word : List ℕ
word = 0 ∷ 0 ∷ 0 ∷ 0 ∷ 0 ∷ 1 ∷ 0 ∷ 2 ∷ []

extdba-compba_example : extdba (compba word) ≡ some word
unfolding leading_zeros
extdba-compba_example = extdba-compba word (omega arith)

-- An array of 255 bytes without zeros.
too_long : extdba (compba (replicate 255 1)) ≡ none
unfolding leading_zeros
too_long = extdba-compba (replicate 255 1) (omega arith)

atoull-word : atoull word ≡ 65538
unfolding atoull be_value
atoull-word = refl

compba-word : compba word ≡ 5 ∷ 1 ∷ 0 ∷ 2 ∷ []
unfolding compba leading_zeros
compba-word = refl
