-- ===== src/Memory/Stack.antt =====
-- The stack of Memory/memory_decl.cpp: what the loops of `push` and `pop` do to the cells.
pub mod RoundTrip
pub mod Invariant
pub mod Order
use virtual_processing_unit.Prelude.{
  ℕ, zero, suc, ◌+◌, ◌-◌, ◌≤◌, ◌<◌, ◌^◌, ◌≡◌, refl, ap, ap₂, ◌∙◌, sym, ◌≢◌, arith, Bool, true,
  false, Option, none, some, ◌>>=◌, List, [], ◌∷◌, ◌++◌, append_assoc, ltb, leb, ◌==◌,
  if◌then◌else◌, length, lt→ltb, le→leb, subst,
}
use native.Mathlib.Decide.{dec_lt}
use virtual_processing_unit.Bytes.{size_mod, add64, sub64}
use virtual_processing_unit.Memory.{Memory, update, write, read, push_loop, pop_loop}

-- The size of the allocated array.
abbrev pub alloc : Memory → ℕ
alloc m = m.sdzsize + m.memlen

-- The `k` cells from `addr` downwards.
abbrev pub block : (ℕ → ℕ) → ℕ → ℕ → List ℕ
block cells addr zero = []
block cells addr (suc k) = cells addr ∷ block cells (addr - 1) k

-- The cells with the bytes stored from `addr` downwards.
abbrev pub fill : (ℕ → ℕ) → ℕ → List ℕ → ℕ → ℕ
fill cells addr [] = cells
fill cells addr (b ∷ bytes) = fill (update cells addr b) (addr - 1) bytes

-- The cells with 0 stored in `k` of them, from `addr` upwards.
abbrev pub clear : (ℕ → ℕ) → ℕ → ℕ → ℕ → ℕ
clear cells addr zero = cells
clear cells addr (suc k) = clear (update cells addr 0) (suc addr) k

pub update_self : (cells : ℕ → ℕ) (a v : ℕ) → update cells a v a ≡ v
unfolding update
update_self cells a v = ground arith

pub update_ne : (cells : ℕ → ℕ) (a v b : ℕ) → a ≢ b → update cells a v b ≡ cells b
unfolding update
update_ne cells a v b ne = ground arith

pub fill-above :
    (cells : ℕ → ℕ) (addr : ℕ) (bytes : List ℕ) (a : ℕ)
    → addr < a
    → fill cells addr bytes a ≡ cells a
fill-above cells addr [] a h = refl
fill-above cells addr (b ∷ bytes) a h =
    fill-above (update cells addr b) (addr - 1) bytes a (omega arith)
    ∙ update_ne cells addr b a (omega arith)

pub fill-below :
    (cells : ℕ → ℕ) (addr : ℕ) (bytes : List ℕ) (a : ℕ)
    → a + length bytes ≤ addr
    → fill cells addr bytes a ≡ cells a
fill-below cells addr [] a h = refl
fill-below cells addr (b ∷ bytes) a h =
    fill-below (update cells addr b) (addr - 1) bytes a (omega arith)
    ∙ update_ne cells addr b a (omega arith)

pub length-block : (cells : ℕ → ℕ) (addr k : ℕ) → length (block cells addr k) ≡ k
length-block cells addr zero = refl
length-block cells addr (suc k) = ap suc (length-block cells (addr - 1) k)

pub block-congr :
    (f g : ℕ → ℕ) (low addr k : ℕ)
    → ((a : ℕ) → low < a → f a ≡ g a)
    → low + k ≤ addr
    → block f addr k ≡ block g addr k
block-congr f g low addr zero e h = refl
block-congr f g low addr (suc k) e h =
    ap₂ ◌∷◌ (e addr (omega arith)) (block-congr f g low (addr - 1) k e (omega arith))

-- What was stored downwards is read back downwards.
pub block-fill :
    (cells : ℕ → ℕ) (addr : ℕ) (bytes : List ℕ)
    → length bytes ≤ addr
    → block (fill cells addr bytes) addr (length bytes) ≡ bytes
block-fill cells addr [] h = refl
block-fill cells addr (b ∷ bytes) h =
    ap₂ ◌∷◌
      (fill-above (update cells addr b) (addr - 1) bytes addr (omega arith)
        ∙ update_self cells addr b)
      (block-fill (update cells addr b) (addr - 1) bytes (omega arith))

block-snoc :
    (cells : ℕ → ℕ) (addr k : ℕ)
    → block cells addr (suc k) ≡ block cells addr k ++ cells (addr - k) ∷ []
block-snoc cells addr zero = ap (λ (a : ℕ). cells a ∷ []) (omega arith)
block-snoc cells addr (suc k) =
    ap (λ r. cells addr ∷ r)
      (block-snoc cells (addr - 1) k
        ∙ ap (λ (a : ℕ). block cells (addr - 1) k ++ cells a ∷ []) (omega arith))

pub clear-below : (cells : ℕ → ℕ) (addr k a : ℕ) → a < addr → clear cells addr k a ≡ cells a
clear-below cells addr zero a h = refl
clear-below cells addr (suc k) a h =
    clear-below (update cells addr 0) (suc addr) k a (omega arith)
    ∙ update_ne cells addr 0 a (omega arith)

pub clear-above : (cells : ℕ → ℕ) (addr k a : ℕ) → addr + k ≤ a → clear cells addr k a ≡ cells a
clear-above cells addr zero a h = refl
clear-above cells addr (suc k) a h =
    clear-above (update cells addr 0) (suc addr) k a (omega arith)
    ∙ update_ne cells addr 0 a (omega arith)

pub clear-within :
    (cells : ℕ → ℕ) (addr k a : ℕ) → addr ≤ a → a < addr + k → clear cells addr k a ≡ 0
clear-within cells addr zero a h p = absurd (omega arith)
clear-within cells addr (suc k) a h p = elim (dec_lt addr a) [
  | yes q ↦ clear-within (update cells addr 0) (suc addr) k a q (omega arith)
  | no q ↦
      subst (λ b. clear (update cells addr 0) (suc addr) k b ≡ 0) (omega arith)
        (clear-below (update cells addr 0) (suc addr) k addr (omega arith)
          ∙ update_self cells addr 0)
]

-- The loop of `push` stores every byte, from `addr` downwards.
pub push_loop-fill :
    (limit addr : ℕ) (bytes : List ℕ) (m : Memory)
    → limit + length bytes ≤ addr
    → addr < alloc m
    → addr < size_mod
    → push_loop limit addr bytes m ≡ some (record m { cells = fill m.cells addr bytes })
unfolding push_loop write
push_loop-fill limit addr [] m h p q = refl
push_loop-fill limit addr (b ∷ bytes) m h p q =
    rw (le→leb limit addr (omega arith), lt→ltb addr (alloc m) p, next)
      (push_loop-fill limit (addr - 1) bytes (record m { cells = update m.cells addr b })
        (omega arith) (omega arith) (omega arith))
  where
    next : sub64 addr 1 ≡ addr - 1
    next = omega arith

-- The loop of `pop` reads the cells below and at `addr + k - 1`, and clears them.
pub pop_loop-block :
    (limit addr k : ℕ) (data' acc : List ℕ) (m : Memory)
    → addr + k ≤ suc limit
    → limit < alloc m
    → suc limit < size_mod
    → pop_loop limit addr k data' acc m
      ≡ some (block m.cells (addr + k - 1) k ++ acc, record m { cells = clear m.cells addr k })
unfolding pop_loop write read
pop_loop-block limit addr zero data' acc m h p q = refl
pop_loop-block limit addr (suc k) data' acc m h p q =
    rw (le→leb addr limit (omega arith), lt→ltb addr (alloc m) (omega arith), next)
      (pop_loop-block limit (suc addr) k data' (m.cells addr ∷ acc) cleared (omega arith) p q
        ∙ ap (λ bs. some (bs, record m { cells = clear m.cells addr (suc k) })) read_back)
  where
    next : add64 addr 1 ≡ suc addr
    next = omega arith

    cleared : Memory
    cleared = record m { cells = update m.cells addr 0 }

    top : addr + suc k - 1 ≡ suc addr + k - 1
    top = omega arith

    last : suc addr + k - 1 - k ≡ addr
    last = omega arith

    same : block (update m.cells addr 0) (suc addr + k - 1) k ≡ block m.cells (suc addr + k - 1) k
    same =
        block-congr (update m.cells addr 0) m.cells addr (suc addr + k - 1) k
          (λ a low. update_ne m.cells addr 0 a (omega arith)) (omega arith)

    read_back :
        block (update m.cells addr 0) (suc addr + k - 1) k ++ m.cells addr ∷ acc
        ≡ block m.cells (addr + suc k - 1) (suc k) ++ acc
    read_back =
        rw (same, top)
          (sym (
            ap (λ r. r ++ acc)
              (block-snoc m.cells (suc addr + k - 1) k
                ∙ ap (λ (a : ℕ). block m.cells (suc addr + k - 1) k ++ m.cells a ∷ []) last)
            ∙ append_assoc (block m.cells (suc addr + k - 1) k) (m.cells addr ∷ []) acc))
