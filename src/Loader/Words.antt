-- ===== src/Loader/Words.antt =====
-- Compressed words, as the assembler writes them and the loader reads them.
use virtual_processing_unit.Prelude.{
  ℕ, ◌+◌, ◌-◌, arith, true, ◌>>=◌, ◌≡◌, refl, ap, ◌∙◌, sym, some, List, [], ◌∷◌, ◌++◌, ltb,
  if◌then◌else◌, length,
}
use virtual_processing_unit.Bytes.{leading_zeros, compba, extdba, word_size}
use virtual_processing_unit.Bytes.Compressed.{extdba-compba, compba-shape}
use virtual_processing_unit.Loader.{next_bytes, decode_word}

pub next_bytes-append :
    (bytes rest : List ℕ) → next_bytes (length bytes) (bytes ++ rest) ≡ some (bytes, rest)
unfolding next_bytes
next_bytes-append [] rest = refl
next_bytes-append (b ∷ bytes) rest = rw (next_bytes-append bytes rest)

decode_word-digits :
    (count : ℕ) (digits rest : List ℕ)
    → length digits ≡ (if ltb count word_size then word_size - count else 1)
    → decode_word (count ∷ digits ++ rest)
      ≡ (do value ← extdba (count ∷ digits); some (value, rest))
unfolding decode_word
decode_word-digits count digits rest h = rw (← h, next_bytes-append)

extdba-word : (bs : List ℕ) → length bs ≡ word_size → extdba (compba bs) ≡ some bs
extdba-word bs e =
    let fits : ltb (length bs) (255 + leading_zeros bs) ≡ true = ground (arith, e) in
    extdba-compba bs (omega (arith, e)) ∙ rw fits refl

-- The loader reads a compressed word back, whatever follows it.
pub decode_word-compba :
    (bs rest : List ℕ) → length bs ≡ word_size → decode_word (compba bs ++ rest) ≡ some (bs, rest)
decode_word-compba bs rest e =
    let (zeros, digits, shape, size) = compba-shape bs (omega (arith, e)) in
    rw shape (
      decode_word-digits zeros digits rest (rw e at size)
      ∙ ap (λ extended. do value ← extended; some (value, rest))
          (ap extdba (sym shape) ∙ extdba-word bs e))
