-- ===== src/Memory/Sdz.antt =====
-- `memory::_SDZS` and `_SDZRSZ` of Memory/memory_decl.cpp: the static data zone, where the
-- arguments of the actions of a program are kept.
use virtual_processing_unit.Prelude.{
  ℕ, suc, ◌+◌, ◌-◌, ◌≤◌, ◌<◌, ◌^◌, ◌≡◌, refl, ◌∙◌, arith, true, false, some, ◌>>=◌, List, [], ◌∷◌,
  ltb, length, lt→ltb,
}
use native.Mathlib.Decide.{dec_lt}
use virtual_processing_unit.Bytes.{size_mod, add64, sub64}
use virtual_processing_unit.Memory.{Memory, get_mem_len, update, write, sdzrsz, sdzs_loop, sdzs}
use virtual_processing_unit.Memory.Stack.{alloc}
use virtual_processing_unit.Memory.Heap.{cells_from, store, store-below, cells_from-store}

-- The zone is used from its start up to `sdztop`, and no size wraps.
pub record IsZone (m : Memory) : Type 0 where
  pub top_in : m.sdztop ≤ m.sdzsize
  pub small : alloc m < 2 ^ 62

sdzs_loop-store :
    (addr : ℕ) (bytes : List ℕ) (m : Memory)
    → addr + length bytes ≤ alloc m
    → alloc m < size_mod
    → sdzs_loop addr bytes m ≡ some (record m { cells = store m.cells addr bytes })
unfolding sdzs_loop write
sdzs_loop-store addr [] m h p = refl
sdzs_loop-store addr (b ∷ []) m h p = rw (lt→ltb addr (alloc m) (omega arith))
sdzs_loop-store addr (b ∷ c ∷ bytes) m h p =
    rw (lt→ltb addr (alloc m) (omega arith), next)
      (sdzs_loop-store (suc addr) (c ∷ bytes) (record m { cells = update m.cells addr b })
        (omega arith) p)
  where
    next : add64 addr 1 ≡ suc addr
    next = omega arith

-- An extension adds a page to the zone, and keeps the cells of the zone as it was.
sdzrsz-zone :
    (fresh : ℕ → ℕ) (m : Memory)
    → IsZone m
    → ((sdzrsz fresh m).sdzsize ≡ m.sdzsize + 0x1000)
      × ((sdzrsz fresh m).memlen ≡ m.memlen)
      × ((sdzrsz fresh m).sdztop ≡ m.sdztop)
      × ((a : ℕ) → a < m.sdzsize → (sdzrsz fresh m).cells a ≡ m.cells a)
unfolding sdzrsz get_mem_len
sdzrsz-zone fresh m ok =
    rw (lt→ltb m.sdzsize (add64 m.sdzsize 0x1000) (omega arith))
      (omega arith, refl, refl, λ a h. ground arith)

-- What `_SDZS` does to a zone with room for `n` bytes, whether or not it was just extended.
record Kept (m m' : Memory) (bytes : List ℕ) : Type 0 where
  top : m'.sdztop ≡ m.sdztop + length bytes
  top_in : m'.sdztop ≤ m'.sdzsize
  size : m'.memlen ≡ m.memlen
  zone : m'.sdzsize ≤ m.sdzsize + 0x1000
  new : cells_from m'.cells m.sdztop (length bytes) ≡ bytes
  old : (a : ℕ) → a < m.sdztop → m'.cells a ≡ m.cells a

stored_in : Memory → Memory → List ℕ → Memory
stored_in m m₁ bytes = record m₁ {
  cells = store m₁.cells m.sdztop bytes;
  sdztop = add64 m.sdztop (length bytes);
}

stored_in-Kept :
    (m m₁ : Memory) (bytes : List ℕ)
    → IsZone m
    → length bytes ≤ 0x1000
    → m.sdztop + length bytes ≤ m₁.sdzsize
    → m₁.sdzsize ≤ m.sdzsize + 0x1000
    → m₁.memlen ≡ m.memlen
    → ((a : ℕ) → a < m.sdztop → m₁.cells a ≡ m.cells a)
    → Kept m (stored_in m m₁ bytes) bytes
unfolding stored_in
stored_in-Kept m m₁ bytes ok page room zone size old = record {
  top = omega arith;
  top_in = omega arith;
  size = size;
  zone = zone;
  new = cells_from-store m₁.cells m.sdztop bytes;
  old = λ a h. store-below m₁.cells m.sdztop bytes a h ∙ old a h;
}

store_loop :
    (m m₁ : Memory) (bytes : List ℕ)
    → m.sdztop + length bytes ≤ alloc m₁
    → alloc m₁ < size_mod
    → (sdzs_loop m.sdztop bytes m₁ >>= λ m₂.
        some (record m₂ { sdztop = add64 m.sdztop (length bytes) }))
      ≡ some (stored_in m m₁ bytes)
unfolding stored_in
store_loop m m₁ bytes room small = rw (sdzs_loop-store m.sdztop bytes m₁ room small)

sdzs-Kept :
    (fresh : ℕ → ℕ) (bytes : List ℕ) (m : Memory)
    → IsZone m
    → 0 < length bytes
    → length bytes ≤ 0x1000
    → (m' : Memory) × (sdzs fresh bytes m ≡ some m') × Kept m m' bytes
unfolding sdzs
sdzs-Kept fresh bytes m ok pos page = elim (dec_lt (m.sdztop + length bytes - 1) m.sdzsize) [
  | yes fits ↦ (
    stored_in m m bytes,
    rw (inside fits) (store_loop m m bytes (omega arith) (omega arith)),
    stored_in-Kept m m bytes ok page (omega arith) (omega arith) refl (λ a h. refl),
  )
  | no full ↦ (
    stored_in m (sdzrsz fresh m) bytes,
    rw (outside full)
        (store_loop m (sdzrsz fresh m) bytes (omega (arith, grown)) (omega (arith, grown))),
    stored_in-Kept m (sdzrsz fresh m) bytes ok page (omega (arith, grown)) (omega (arith, grown))
        grown.1 (λ a h. grown.3 a (omega arith)),
  )
]
  where
    grown :
        ((sdzrsz fresh m).sdzsize ≡ m.sdzsize + 0x1000)
        × ((sdzrsz fresh m).memlen ≡ m.memlen)
        × ((sdzrsz fresh m).sdztop ≡ m.sdztop)
        × ((a : ℕ) → a < m.sdzsize → (sdzrsz fresh m).cells a ≡ m.cells a)
    grown = sdzrsz-zone fresh m ok

    inside :
        m.sdztop + length bytes - 1 < m.sdzsize
        → ltb (sub64 (add64 m.sdztop (length bytes)) 1) m.sdzsize ≡ true
    inside h = ground arith

    outside :
        ¬ (m.sdztop + length bytes - 1 < m.sdzsize)
        → ltb (sub64 (add64 m.sdztop (length bytes)) 1) m.sdzsize ≡ false
    outside h = ground arith

-- A constant of at most a page is stored at the old top of the zone, the top moves behind it and
-- stays in the zone, the zone grows by at most a page, the rest of the memory keeps its size, and
-- every constant that was stored before is kept.
pub sdzs-IsZone :
    (fresh : ℕ → ℕ) (bytes : List ℕ) (m : Memory)
    → IsZone m
    → 0 < length bytes
    → length bytes ≤ 0x1000
    → (m' : Memory) × (sdzs fresh bytes m ≡ some m')
      × (m'.sdztop ≡ m.sdztop + length bytes)
      × (m'.sdztop ≤ m'.sdzsize)
      × (m'.memlen ≡ m.memlen)
      × (m'.sdzsize ≤ m.sdzsize + 0x1000)
      × (cells_from m'.cells m.sdztop (length bytes) ≡ bytes)
      × ((a : ℕ) → a < m.sdztop → m'.cells a ≡ m.cells a)
sdzs-IsZone fresh bytes m ok pos page =
    let (m', e, k) = sdzs-Kept fresh bytes m ok pos page in
    (m', e, k.top, k.top_in, k.size, k.zone, k.new, k.old)
