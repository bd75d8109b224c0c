-- ===== src/Bytes/Words.antt =====
-- utility.h: `ULLTOA` and `ATOULL`, the bytes of a word, highest first.
use native.Mathlib.Nat.{div-div-eq-div-mul, div-add-mod', mul_comm}
use native.Mathlib.Numerals.{towards_suc}
use virtual_processing_unit.Prelude.{
  ℕ, zero, suc, ◌+◌, ◌*◌, ◌/◌, ◌%◌, ◌^◌, ◌≤◌, ◌<◌, bit_or, ◌≡◌, refl, List, [], ◌∷◌, arith, length,
  ap, ap₂, subst, sym, All, ◌∙◌,
}
use virtual_processing_unit.Prelude.Bits.{bit_or-shifted}
use virtual_processing_unit.Bytes.{be_bytes, ulltoa, be_value, atoull, size_mod, IsByte}

-- The weight of byte `n`, and of the next.
abbrev weight : ℕ → ℕ
weight n = 2 ^ (n * 8)

weight-add : (k : ℕ) → 2 ^ (k + 8) ≡ 256 * 2 ^ k
weight-add k = simp towards_suc (omega arith)

weight-suc : (n : ℕ) → weight (suc n) ≡ 256 * weight n
weight-suc n = ap (λ (k : ℕ). 2 ^ k) (omega arith) ∙ weight-add (n * 8)

weight-pos : (n : ℕ) → 0 < weight n
weight-pos zero = omega arith
weight-pos (suc n) = omega (arith, weight-suc n, weight-pos n)

-- One round of `ATOULL`: the next byte goes under what is read so far.
or_byte :
    (n h b : ℕ) → b < 256 → bit_or (h * weight (suc n)) (b * weight n) ≡ (h * 256 + b) * weight n
or_byte n h b small = omega (
  arith,
  bit_or-shifted (suc n * 8) h (b * weight n) (rw (weight-suc n) (byte-lt-weight n small)),
  ap (λ (t : ℕ). h * t) (weight-suc n),
)
  where
    byte-lt-weight : (k : ℕ) → b < 256 → b * weight k < 256 * weight k
    byte-lt-weight k p = grind (arith, weight-pos k)

shift_byte : (n v : ℕ) → v / weight n / 256 ≡ v / weight (suc n)
shift_byte n v =
    div-div-eq-div-mul v (weight n) 256
    ∙ ap (λ (t : ℕ). v / t) (mul_comm (weight n) 256 ∙ sym (weight-suc n))

be_value-be_bytes : (n v : ℕ) → be_value n (be_bytes n v) (v / weight n * weight n) ≡ v
unfolding be_value be_bytes
be_value-be_bytes zero v = omega arith
be_value-be_bytes (suc n) v =
    rw
      (
        or_byte n (v / weight (suc n)) (v / weight n % 256) (omega arith),
        ← shift_byte n v,
        div-add-mod',
      )
      (be_value-be_bytes n v)

-- Writing a word of `size_t` as bytes and reading the bytes gives the word.
pub atoull-ulltoa : (v : ℕ) → v < size_mod → atoull (ulltoa v) ≡ v
unfolding atoull ulltoa
atoull-ulltoa v h = omega (arith, ap (λ (t : ℕ). t) (from_zero v h))
  where
    from_zero : (w : ℕ) → w < size_mod → be_value 8 (be_bytes 8 w) 0 ≡ w
    from_zero w p = rw (q) at (be_value-be_bytes 8 w)
      where
        q : w / weight 8 * weight 8 ≡ 0
        q = omega arith

-- What the bytes stand for, highest first.
pub be_sum : List ℕ → ℕ
be_sum [] = 0
be_sum (b ∷ bs) = b * weight (length bs) + be_sum bs

pub be_sum-lt : (bs : List ℕ) → All IsByte bs → be_sum bs < weight (length bs)
unfolding be_sum
be_sum-lt [] a = omega arith
be_sum-lt (b ∷ bs) a =
    omega (arith, be_sum-lt bs a.1, weight-suc (length bs), byte-mul-le b (weight (length bs)) a.0)
  where
    byte-mul-le : (c p : ℕ) → c < 256 → c * p + p ≤ 256 * p
    byte-mul-le c p h = grind arith

be_value-be_sum :
    (bs : List ℕ) (h : ℕ)
    → All IsByte bs
    → be_value (length bs) bs (h * weight (length bs)) ≡ h * weight (length bs) + be_sum bs
unfolding be_value be_sum
be_value-be_sum [] h a = omega arith
be_value-be_sum (b ∷ bs) h a =
    ap (be_value (length bs) bs) (or_byte (length bs) h b a.0)
    ∙ be_value-be_sum bs (h * 256 + b) a.1
    ∙ omega (arith, ap (λ (t : ℕ). h * t) (weight-suc (length bs)))

-- `ATOULL` is the big-endian value of the eight bytes.
atoull-eq-be_sum : (bs : List ℕ) → length bs ≡ 8 → All IsByte bs → atoull bs ≡ be_sum bs
unfolding atoull
atoull-eq-be_sum bs e a = omega (arith, eight)
  where
    eight : be_value 8 bs 0 ≡ 0 + be_sum bs
    eight = rw e at (be_value-be_sum bs 0 a)

div-weight : (h r p : ℕ) → r < p → (h * p + r) / p ≡ h
div-weight h r p small = grind arith

be_bytes-be_sum :
    (bs : List ℕ) (h : ℕ)
    → All IsByte bs
    → be_bytes (length bs) (h * weight (length bs) + be_sum bs) ≡ bs
unfolding be_bytes be_sum
be_bytes-be_sum [] h a = refl
be_bytes-be_sum (b ∷ bs) h a =
    ap₂ ◌∷◌
      (rw (whole, div-weight (h * 256 + b) (be_sum bs) (weight (length bs)) (be_sum-lt bs a.1))
        (omega arith))
      (rw whole (be_bytes-be_sum bs (h * 256 + b) a.1))
  where
    whole :
        h * weight (suc (length bs)) + (b * weight (length bs) + be_sum bs)
        ≡ (h * 256 + b) * weight (length bs) + be_sum bs
    whole = omega (arith, ap (λ (t : ℕ). h * t) (weight-suc (length bs)))

-- Reading eight bytes as a word of `size_t` and writing the word gives the bytes.
pub ulltoa-atoull : (bs : List ℕ) → length bs ≡ 8 → All IsByte bs → ulltoa (atoull bs) ≡ bs
unfolding ulltoa
ulltoa-atoull bs e a = rw (atoull-eq-be_sum bs e a) (
    subst (λ n. be_bytes n (be_sum bs) ≡ bs) e
      (ap (be_bytes (length bs)) (omega arith) ∙ be_bytes-be_sum bs 0 a))

be_bytes-IsByte : (n v : ℕ) → All IsByte (be_bytes n v)
unfolding be_bytes
be_bytes-IsByte zero v = tt
be_bytes-IsByte (suc n) v = (omega arith, be_bytes-IsByte n v)

length-be_bytes : (n v : ℕ) → length (be_bytes n v) ≡ n
unfolding be_bytes
length-be_bytes zero v = refl
length-be_bytes (suc n) v = ap suc (length-be_bytes n v)

-- `ULLTOA` gives `sizeof(size_t)` bytes, each of them in range.
pub ulltoa-IsWord : (v : ℕ) → (length (ulltoa v) ≡ 8) × All IsByte (ulltoa v)
unfolding ulltoa
ulltoa-IsWord v = (length-be_bytes 8 v, be_bytes-IsByte 8 v)
