-- ===== src/Bytes/Compressed.antt =====
-- utility.h: `COMPBA` and `EXTDBA`, one after the other.
use virtual_processing_unit.Prelude.{
  ℕ, zero, suc, ◌+◌, ◌-◌, ◌≤◌, ◌<◌, ◌≡◌, refl, List, [], ◌∷◌, ◌++◌, append-nil, ap, sym, take,
  take-all, min, ◌%◌, true, none, some, ◌∙◌, arith, length, drop, replicate, false, ltb, ◌==◌,
  if◌then◌else◌, inl, inr, Bool-cases,
}
use virtual_processing_unit.Bytes.{leading_zeros, compba, copy_from, extend_digits, extdba}

leading_zeros-le : (bs : List ℕ) → leading_zeros bs ≤ length bs
unfolding leading_zeros
leading_zeros-le [] = omega arith
leading_zeros-le (b ∷ bs) = ground (arith, leading_zeros-le bs)

suc-ne-zero : (b : ℕ) → (suc b == 0) ≡ false
suc-ne-zero b = ground arith

-- The array is its leading zeros and what follows them.
leading_zeros-append-drop :
    (bs : List ℕ) → replicate (leading_zeros bs) 0 ++ drop (leading_zeros bs) bs ≡ bs
unfolding leading_zeros
leading_zeros-append-drop [] = refl
leading_zeros-append-drop (zero ∷ bs) = ap (λ r. 0 ∷ r) (leading_zeros-append-drop bs)
leading_zeros-append-drop (suc b ∷ bs) = rw (suc-ne-zero b)

-- An array with another byte in it goes on with such a byte after its leading zeros.
first_digit :
    (bs : List ℕ)
    → leading_zeros bs < length bs
    → (d : ℕ) × (rest : List ℕ) × (drop (leading_zeros bs) bs ≡ suc d ∷ rest)
unfolding leading_zeros
first_digit [] h = absurd (omega arith)
first_digit (zero ∷ bs) h = first_digit bs (omega arith)
first_digit (suc b ∷ bs) h = (b, bs, rw (suc-ne-zero b))

all_zeros : (bs : List ℕ) → leading_zeros bs ≡ length bs → replicate (leading_zeros bs) 0 ≡ bs
unfolding leading_zeros
all_zeros [] h = refl
all_zeros (zero ∷ bs) h = ap (λ r. 0 ∷ r) (all_zeros bs (omega arith))
all_zeros (suc b ∷ bs) h = absurd (ground arith)

copy_from_lem : (n : ℕ) (bs : List ℕ) → length bs ≡ n → copy_from n bs ≡ bs
unfolding copy_from
copy_from_lem zero [] h = refl
copy_from_lem zero (b ∷ bs) h = absurd (omega arith)
copy_from_lem (suc n) [] h = refl
copy_from_lem (suc n) (b ∷ bs) h = ap (λ r. b ∷ r) (copy_from_lem n bs (omega arith))

-- With a digit that is not 0 behind the count, `EXTDBA` puts that many zeros before the digits, if
-- the compressed array is shorter than 256 bytes.
extdba-digits :
    (z d : ℕ) (rest : List ℕ)
    → 2 + length rest < 256
    → extdba (z ∷ suc d ∷ rest) ≡ some (replicate z 0 ++ (suc d ∷ rest))
unfolding extdba extend_digits
extdba-digits z d rest small =
    rw (suc-ne-zero d, size, some_size, first, whole, copied)
      (ap (λ (n : ℕ). some (replicate z 0 ++ (suc d ∷ rest) ++ replicate n 0)) none_left
        ∙ ap some (append-nil (replicate z 0 ++ (suc d ∷ rest))))
  where
    size : suc (suc (length rest)) % 256 ≡ suc (suc (length rest))
    size = omega arith

    some_size : (z + suc (suc (length rest)) == 0) ≡ false
    some_size = ground arith

    first : min z (z + suc (suc (length rest)) - 1) ≡ z
    first = omega arith

    one_less : suc (suc (length rest)) - 1 ≡ length (suc d ∷ rest)
    one_less = omega arith

    whole : take (suc (suc (length rest)) - 1) (suc d ∷ rest) ≡ suc d ∷ rest
    whole = ap (λ n. take n (suc d ∷ rest)) one_less ∙ take-all (suc d ∷ rest)

    copied : copy_from (z + suc (suc (length rest)) - 1 - z) (suc d ∷ rest) ≡ suc d ∷ rest
    copied = copy_from_lem (z + suc (suc (length rest)) - 1 - z) (suc d ∷ rest) (omega arith)

    none_left : z + suc (suc (length rest)) - 1 - z - suc (length rest) ≡ 0
    none_left = omega arith

-- A compressed array of 256 bytes has the length 0.
extdba-wraps : (d : ℕ) (rest : List ℕ) → length rest ≡ 254 → extdba (0 ∷ suc d ∷ rest) ≡ none
unfolding extdba extend_digits
extdba-wraps d rest e = rw (suc-ne-zero d, e) refl

extdba-zeros : (z : ℕ) → extdba (z ∷ 0 ∷ []) ≡ some (replicate z 0)
unfolding extdba
extdba-zeros z = refl

length-drop_zeros :
    (bs : List ℕ) → length (drop (leading_zeros bs) bs) ≡ length bs - leading_zeros bs
unfolding leading_zeros
length-drop_zeros [] = refl
length-drop_zeros (zero ∷ bs) = omega (arith, length-drop_zeros bs)
length-drop_zeros (suc b ∷ bs) = rw (suc-ne-zero b) (omega arith)

-- `COMPBA` of an array whose length an `unsigned char` holds.
compba-small :
    (bs : List ℕ)
    → length bs < 256
    → compba bs ≡ (
        if ltb (leading_zeros bs) (length bs)
        then leading_zeros bs ∷ drop (leading_zeros bs) bs
        else leading_zeros bs ∷ 0 ∷ [])
unfolding compba
compba-small bs small = rw (size, take-all bs) refl
  where
    size : length bs % 256 ≡ length bs
    size = omega arith

-- Extending what `COMPBA` made of an array of fewer than 256 bytes gives the array back, but for an
-- array of 255 bytes that does not begin with a 0: its compressed array is too long, and extending
-- it fails.
pub extdba-compba :
    (bs : List ℕ)
    → length bs < 256
    → extdba (compba bs) ≡ (if ltb (length bs) (255 + leading_zeros bs) then some bs else none)
extdba-compba bs small =
    rw (compba-small bs small) (elim (Bool-cases (ltb (leading_zeros bs) (length bs))) [
      | inl t ↦
          let (d, rest, e) = first_digit bs (ground arith) in
          let size : suc (length rest) ≡ length bs - leading_zeros bs =
            ap length (sym e) ∙ length-drop_zeros bs in
          elim (Bool-cases (ltb (length bs) (255 + leading_zeros bs))) [
            | inl fits ↦
                rw (t, fits, e, extdba-digits (leading_zeros bs) d rest (ground (arith, size)), ← e)
                  (ap some (leading_zeros-append-drop bs))
            | inr wraps ↦
                let no_zeros : leading_zeros bs ≡ 0 = ground arith in
                rw (t, wraps, e)
                  (ap (λ z. extdba (z ∷ suc d ∷ rest)) no_zeros
                    ∙ extdba-wraps d rest (ground (arith, size)))
          ]
      | inr f ↦
          let all : leading_zeros bs ≡ length bs = ground (arith, leading_zeros-le bs) in
          let fits : ltb (length bs) (255 + leading_zeros bs) ≡ true = ground arith in
          rw (f, fits, extdba-zeros) (ap some (all_zeros bs all))
    ])

-- A compressed array is a count of zeros and the digits that they leave room for, or one byte.
pub compba-shape :
    (bs : List ℕ)
    → length bs < 256
    → (zeros : ℕ) × (digits : List ℕ) × (compba bs ≡ zeros ∷ digits)
      × (length digits ≡ (if ltb zeros (length bs) then length bs - zeros else 1))
compba-shape bs small =
    rw (compba-small bs small) (elim (Bool-cases (ltb (leading_zeros bs) (length bs))) [
      | inl t ↦ (leading_zeros bs, drop (leading_zeros bs) bs, rw t, rw t (length-drop_zeros bs))
      | inr f ↦ (leading_zeros bs, 0 ∷ [], rw f, rw f)
    ])
