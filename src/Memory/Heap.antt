-- ===== src/Memory/Heap.antt =====
-- `memory::_MS`, `_MG` and `_MRSZ` of Memory/memory_decl.cpp: bounds and round trips.
use virtual_processing_unit.Prelude.{
  ℕ, zero, suc, ◌+◌, ◌≤◌, ◌<◌, ◌^◌, ◌≡◌, refl, ap, ap₂, max, ◌∙◌, sym, arith, false, some, ◌>>=◌,
  List, [], ◌∷◌, ltb, if◌then◌else◌, length, lt→ltb, ◌⊎◌, inl, inr,
}
use native.Mathlib.Decide.{dec_lt}
use virtual_processing_unit.Bytes.{size_mod, add64, sub64}
use virtual_processing_unit.Memory.{
  Memory, get_mem_len, update, write, read, ms_loop, mg_loop, ms, mg, mrsz,
}
use virtual_processing_unit.Memory.Stack.{alloc, update_self, update_ne}

-- The `k` cells from `addr` upwards.
abbrev pub cells_from : (ℕ → ℕ) → ℕ → ℕ → List ℕ
cells_from cells addr zero = []
cells_from cells addr (suc k) = cells addr ∷ cells_from cells (suc addr) k

-- The cells with the bytes stored from `addr` upwards.
abbrev pub store : (ℕ → ℕ) → ℕ → List ℕ → ℕ → ℕ
store cells addr [] = cells
store cells addr (b ∷ bytes) = store (update cells addr b) (suc addr) bytes

pub store-below :
    (cells : ℕ → ℕ) (addr : ℕ) (bytes : List ℕ) (a : ℕ)
    → a < addr
    → store cells addr bytes a ≡ cells a
store-below cells addr [] a h = refl
store-below cells addr (b ∷ bytes) a h =
    store-below (update cells addr b) (suc addr) bytes a (omega arith)
    ∙ update_ne cells addr b a (omega arith)

pub store-above :
    (cells : ℕ → ℕ) (addr : ℕ) (bytes : List ℕ) (a : ℕ)
    → addr + length bytes ≤ a
    → store cells addr bytes a ≡ cells a
store-above cells addr [] a h = refl
store-above cells addr (b ∷ bytes) a h =
    store-above (update cells addr b) (suc addr) bytes a (omega arith)
    ∙ update_ne cells addr b a (omega arith)

pub cells_from-store :
    (cells : ℕ → ℕ) (addr : ℕ) (bytes : List ℕ)
    → cells_from (store cells addr bytes) addr (length bytes) ≡ bytes
cells_from-store cells addr [] = refl
cells_from-store cells addr (b ∷ bytes) =
    ap₂ ◌∷◌
      (store-below (update cells addr b) (suc addr) bytes addr (omega arith)
        ∙ update_self cells addr b)
      (cells_from-store (update cells addr b) (suc addr) bytes)

pub cells_from-congr :
    (f g : ℕ → ℕ) (addr k : ℕ)
    → ((a : ℕ) → addr ≤ a → a < addr + k → f a ≡ g a)
    → cells_from f addr k ≡ cells_from g addr k
cells_from-congr f g addr zero e = refl
cells_from-congr f g addr (suc k) e =
    ap₂ ◌∷◌ (e addr (omega arith) (omega arith))
      (cells_from-congr f g (suc addr) k (λ a p q. e a (omega arith) (omega arith)))

ms_loop-store :
    (limit i : ℕ) (bytes : List ℕ) (m : Memory)
    → i + length bytes ≤ limit
    → limit ≤ alloc m
    → limit < size_mod
    → ms_loop limit i bytes m ≡ some (record m { cells = store m.cells i bytes })
unfolding ms_loop write
ms_loop-store limit i [] m h p q = refl
ms_loop-store limit i (b ∷ bytes) m h p q =
    rw (lt→ltb i limit (omega arith), lt→ltb i (alloc m) (omega arith), next)
      (ms_loop-store limit (suc i) bytes (record m { cells = update m.cells i b }) (omega arith) p
        q)
  where
    next : add64 i 1 ≡ suc i
    next = omega arith

mg_loop-cells_from :
    (limit i : ℕ) (data' : List ℕ) (m : Memory)
    → i + length data' ≤ limit
    → limit ≤ alloc m
    → limit < size_mod
    → mg_loop limit i data' m ≡ some (cells_from m.cells i (length data'))
unfolding mg_loop read
mg_loop-cells_from limit i [] m h p q = refl
mg_loop-cells_from limit i (b ∷ data') m h p q = rw (
  lt→ltb i limit (omega arith),
  lt→ltb i (alloc m) (omega arith),
  next,
  mg_loop-cells_from limit (suc i) data' m (omega arith) p q,
)
  where
    next : add64 i 1 ≡ suc i
    next = omega arith

-- The sizes of an allocated memory: there is a static data zone, and nothing wraps.
pub record IsAllocated (m : Memory) : Type 0 where
  pub zone : 0 < m.sdzsize
  pub small : alloc m < 2 ^ 63

-- The bytes fit behind `addr`, as `_MS` and `_MG` see it: the byte at `_memlen` itself is let in.
abbrev pub InRange : Memory → ℕ → ℕ → Type 0
InRange m addr n = addr + n ≤ suc m.memlen

in_range :
    (m : Memory) (addr n : ℕ)
    → IsAllocated m
    → 0 < n
    → InRange m addr n
    → (ltb m.memlen (sub64 (add64 addr n) 1) ≡ false) × (add64 addr n ≡ addr + n)
in_range m addr n ok pos h = (ground arith, omega arith)

-- `_MS` in range stores the bytes from `addr` upwards, inside the allocated array.
pub ms-InRange :
    (bytes : List ℕ) (addr : ℕ) (m : Memory)
    → IsAllocated m
    → 0 < length bytes
    → InRange m addr (length bytes)
    → ms bytes addr m ≡ some (record m { cells = store m.cells addr bytes })
unfolding ms
ms-InRange bytes addr m ok pos h =
    let (test, sum) = in_range m addr (length bytes) ok pos h in
    rw (test, sum)
      (ms_loop-store (addr + length bytes) addr bytes m (omega arith) (omega arith) (omega arith))

-- `_MG` in range reads the cells from `addr` upwards.
pub mg-InRange :
    (data' : List ℕ) (addr : ℕ) (m : Memory)
    → IsAllocated m
    → 0 < length data'
    → InRange m addr (length data')
    → mg data' addr m ≡ some (cells_from m.cells addr (length data'))
unfolding mg
mg-InRange data' addr m ok pos h =
    let (test, sum) = in_range m addr (length data') ok pos h in
    rw (test, sum)
      (mg_loop-cells_from (addr + length data') addr data' m (omega arith) (omega arith)
        (omega arith))

-- Out of range `_MS` changes nothing, also where `addr + count` wraps round and passes the test.
ms-out_of_range :
    (bytes : List ℕ) (addr : ℕ) (m : Memory)
    → IsAllocated m
    → addr < size_mod
    → 0 < length bytes
    → length bytes < size_mod
    → suc m.memlen < addr + length bytes
    → ms bytes addr m ≡ some m
unfolding ms ms_loop
ms-out_of_range [] addr m ok a pos n h = absurd (omega arith)
ms-out_of_range (b ∷ bytes) addr m ok a pos n h = ground arith

-- So does `_MG` to its buffer.
pub mg-out_of_range :
    (data' : List ℕ) (addr : ℕ) (m : Memory)
    → IsAllocated m
    → addr < size_mod
    → 0 < length data'
    → length data' < size_mod
    → suc m.memlen < addr + length data'
    → mg data' addr m ≡ some data'
unfolding mg mg_loop
mg-out_of_range [] addr m ok a pos n h = absurd (omega arith)
mg-out_of_range (b ∷ data') addr m ok a pos n h = ground arith

-- What `_MS` stores in range, `_MG` reads back; a range that does not meet it reads as before.
pub mg-ms :
    (bytes data' : List ℕ) (addr : ℕ) (m : Memory)
    → IsAllocated m
    → 0 < length bytes
    → InRange m addr (length bytes)
    → length data' ≡ length bytes
    → ((ms bytes addr m >>= mg data' addr) ≡ some bytes)
      × ((other : ℕ) (buffer : List ℕ)
          → 0 < length buffer
          → InRange m other (length buffer)
          → (other + length buffer ≤ addr) ⊎ (addr + length bytes ≤ other)
          → (ms bytes addr m >>= mg buffer other) ≡ mg buffer other m)
mg-ms bytes data' addr m ok pos h same = (
  rw (ms-InRange bytes addr m ok pos h) (
      mg-InRange data' addr stored allocated (omega arith) (omega arith)
      ∙ ap some (rw same (cells_from-store m.cells addr bytes))),
  λ other buffer p q apart. rw (ms-InRange bytes addr m ok pos h) (
      mg-InRange buffer other stored allocated p q
      ∙ ap some (
          cells_from-congr stored.cells m.cells other (length buffer) (λ a low high. elim apart [
            | inl before ↦ store-below m.cells addr bytes a (omega arith)
            | inr behind ↦ store-above m.cells addr bytes a (omega arith)
          ]))
      ∙ sym (mg-InRange buffer other m ok p q)),
)
  where
    stored : Memory
    stored = record m { cells = store m.cells addr bytes }

    allocated : IsAllocated stored
    allocated = omega arith

-- `_MRSZ` only ever grows the memory, keeps every cell that was allocated and clears the rest.
pub mrsz-cells :
    (newlen : ℕ) (m : Memory)
    → IsAllocated m
    → newlen + m.sdzsize < size_mod
    → (m' : Memory) × (mrsz newlen m ≡ some m')
      × (m'.memlen ≡ max m.memlen newlen)
      × (m'.sdzsize ≡ m.sdzsize)
      × (m'.sdztop ≡ m.sdztop)
      × ((a : ℕ)
          → (a < alloc m → m'.cells a ≡ m.cells a) × (alloc m ≤ a → a < alloc m' → m'.cells a ≡ 0))
unfolding mrsz get_mem_len
mrsz-cells newlen m ok fits = elim (dec_lt m.memlen newlen) [
  | yes grow ↦ (
    record m { cells = λ a. if ltb a (get_mem_len m) then m.cells a else 0; memlen = newlen },
    rw (lt→ltb m.memlen newlen grow, lt→ltb (newlen + m.sdzsize) size_mod fits),
    omega arith,
    refl,
    refl,
    λ a. (λ h. ground arith, λ h k. ground arith),
  )
  | no keep ↦
      (m, ground arith, omega arith, refl, refl, λ a. (λ h. refl, λ h k. absurd (omega arith)))
]
