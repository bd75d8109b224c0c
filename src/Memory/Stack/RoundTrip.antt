-- ===== src/Memory/Stack/RoundTrip.antt =====
-- `memory::push` and `memory::pop`: what they do with and without room, and the round trip.
use virtual_processing_unit.Prelude.{
  ℕ, suc, ◌+◌, ◌-◌, ◌≤◌, ◌<◌, ◌^◌, ◌≡◌, refl, ap, ◌∙◌, arith, Bool, true, false, some, ◌>>=◌, List,
  [], append-nil, reverse-reverse, length, length-reverse,
}
use virtual_processing_unit.Bytes.{add64, sub64}
use virtual_processing_unit.Memory.{
  Machine, is_valid_push, is_valid_pop, swap_endian, push_loop, pop_loop, push, pop,
}
use virtual_processing_unit.Memory.Stack.{
  alloc, block, fill, clear, fill-above, fill-below, block-fill, clear-below, clear-above,
  clear-within, push_loop-fill, pop_loop-block,
}

-- The stack pointers stand in order, and the stack lies in the allocated array.
pub record IsStack (s : Machine) : Type 0 where
  pub end_le_top : s.regs.rsend ≤ s.regs.rsp
  pub top_le_base : s.regs.rsp ≤ s.regs.rbp
  pub base_lt_begin : s.regs.rbp < s.regs.rsbgn
  pub begin_in : s.regs.rsbgn ≤ alloc s.mem
  pub alloc_small : alloc s.mem < 2 ^ 63

-- There is room for `n` bytes.
abbrev pub Room : Machine → ℕ → Type 0
Room s n = s.regs.rsend + n ≤ s.regs.rsp

-- There are `n` bytes on the stack.
abbrev pub Holds : Machine → ℕ → Type 0
Holds s n = s.regs.rsp + n ≤ s.regs.rbp

valid_push :
    (s : Machine) (n : ℕ)
    → IsStack s
    → Room s n
    → 0 < n
    → is_valid_push s.regs.rbp s.regs.rsp s.regs.rsend s.regs.rsbgn n ≡ true
unfolding is_valid_push
valid_push s n ok room pos = ground arith

-- For counts that a buffer can have, a push that passes the test has room.
invalid_push :
    (s : Machine) (n : ℕ)
    → IsStack s
    → n < 2 ^ 63
    → s.regs.rsp < s.regs.rsend + n
    → is_valid_push s.regs.rbp s.regs.rsp s.regs.rsend s.regs.rsbgn n ≡ false
unfolding is_valid_push
invalid_push s n ok small full = ground arith

valid_pop :
    (s : Machine) (n : ℕ)
    → IsStack s
    → Holds s n
    → is_valid_pop s.regs.rbp s.regs.rsp s.regs.rsend s.regs.rsbgn n ≡ true
unfolding is_valid_pop
valid_pop s n ok holds = ground arith

invalid_pop :
    (s : Machine) (n : ℕ)
    → IsStack s
    → n < 2 ^ 63
    → s.regs.rbp < s.regs.rsp + n
    → is_valid_pop s.regs.rbp s.regs.rsp s.regs.rsend s.regs.rsbgn n ≡ false
unfolding is_valid_pop
invalid_pop s n ok small empty = ground arith

pub length-swap_endian :
    (swap : Bool) (bytes : List ℕ) → length (swap_endian swap bytes) ≡ length bytes
unfolding swap_endian
length-swap_endian true bytes = length-reverse bytes
length-swap_endian false bytes = refl

pub swap_endian_twice :
    (swap : Bool) (bytes : List ℕ) → swap_endian swap (swap_endian swap bytes) ≡ bytes
unfolding swap_endian
swap_endian_twice true bytes = reverse-reverse bytes
swap_endian_twice false bytes = refl

-- The machine after a push of `bytes`, as they lie in memory, downwards from the old top.
abbrev pub pushed : Machine → List ℕ → Machine
pushed s bytes = record s {
  regs = record s.regs { rsp = s.regs.rsp - length bytes };
  mem = record s.mem { cells = fill s.mem.cells s.regs.rsp bytes };
}

-- A push with room stores its bytes below the old top and moves the top down by their number.
pub push-Room :
    (bytes : List ℕ) (swap : Bool) (s : Machine)
    → IsStack s
    → Room s (length bytes)
    → 0 < length bytes
    → push bytes swap s ≡ some (pushed s (swap_endian swap bytes))
unfolding push
push-Room bytes swap s ok room pos =
    rw (valid_push s (length bytes) ok room pos, moved, stored, length-swap_endian)
  where
    moved : sub64 s.regs.rsp (length bytes) ≡ s.regs.rsp - length bytes
    moved = omega arith

    stored :
        push_loop (s.regs.rsp - length bytes) s.regs.rsp (swap_endian swap bytes) s.mem
        ≡ some (record s.mem { cells = fill s.mem.cells s.regs.rsp (swap_endian swap bytes) })
    stored =
        push_loop-fill (s.regs.rsp - length bytes) s.regs.rsp (swap_endian swap bytes) s.mem
          (omega (arith, length-swap_endian swap bytes)) (omega arith) (omega arith)

-- A push without room changes nothing.
pub push-full :
    (bytes : List ℕ) (swap : Bool) (s : Machine)
    → IsStack s
    → length bytes < 2 ^ 63
    → s.regs.rsp < s.regs.rsend + length bytes
    → push bytes swap s ≡ some s
unfolding push
push-full bytes swap s ok small full = rw (invalid_push s (length bytes) ok small full)

-- The machine after a pop of `n` bytes.
abbrev pub popped : Machine → ℕ → Machine
popped s n = record s {
  regs = record s.regs { rsp = s.regs.rsp + n };
  mem = record s.mem { cells = clear s.mem.cells (suc s.regs.rsp) n };
}

-- A pop with enough on the stack fills its buffer with the bytes below the new top, lowest address
-- last, clears them, and moves the top up by their number.
pub pop-Holds :
    (data' : List ℕ) (swap : Bool) (s : Machine)
    → IsStack s
    → Holds s (length data')
    → pop data' swap s
      ≡ some (
        swap_endian swap (block s.mem.cells (s.regs.rsp + length data') (length data')),
        popped s (length data'),
      )
unfolding pop
pop-Holds data' swap s ok holds = rw (valid_pop s (length data') ok holds, moved, first, loop)
  where
    moved : add64 s.regs.rsp (length data') ≡ s.regs.rsp + length data'
    moved = omega arith

    first : add64 s.regs.rsp 1 ≡ suc s.regs.rsp
    first = omega arith

    loop :
        pop_loop (s.regs.rsp + length data') (suc s.regs.rsp) (length data') data' [] s.mem
        ≡ some (
          block s.mem.cells (s.regs.rsp + length data') (length data'),
          record s.mem { cells = clear s.mem.cells (suc s.regs.rsp) (length data') },
        )
    loop =
        pop_loop-block (s.regs.rsp + length data') (suc s.regs.rsp) (length data') data' [] s.mem
          (omega arith) (omega arith) (omega arith)
        ∙ ap
            (λ bs.
              some (bs, record s.mem { cells = clear s.mem.cells (suc s.regs.rsp) (length data') }))
            (append-nil _ ∙ ap (λ (a : ℕ). block s.mem.cells a (length data')) (omega arith))

-- A pop from a stack that holds less changes nothing, and leaves the buffer as it was.
pub pop-empty :
    (data' : List ℕ) (swap : Bool) (s : Machine)
    → IsStack s
    → length data' < 2 ^ 63
    → s.regs.rbp < s.regs.rsp + length data'
    → pop data' swap s ≡ some (data', s)
unfolding pop
pop-empty data' swap s ok small empty = rw (invalid_pop s (length data') ok small empty)

-- Whatever is pushed with room is popped again: the buffer gets the bytes back, in
-- the order that the two flags ask for, the registers are as before the push, and the cells are as before, but for those of the popped bytes, which are 0.
pub pop-push :
    (bytes data' : List ℕ) (swap swap' : Bool) (s : Machine)
    → IsStack s
    → Room s (length bytes)
    → 0 < length bytes
    → length data' ≡ length bytes
    → (t : Machine) × ((push bytes swap s >>= pop data' swap')
        ≡ some (swap_endian swap' (swap_endian swap bytes), t))
      × (t.regs ≡ s.regs)
      × (t.calling_tree ≡ s.calling_tree)
      × ((a : ℕ)
          → (a + length bytes ≤ s.regs.rsp → t.mem.cells a ≡ s.mem.cells a)
            × (s.regs.rsp < a → t.mem.cells a ≡ s.mem.cells a)
            × (a ≤ s.regs.rsp → s.regs.rsp < a + length bytes → t.mem.cells a ≡ 0))
pop-push bytes data' swap swap' s ok room pos same = (
  popped (pushed s stored) (length data'),
  rw (push-Room bytes swap s ok room pos) (
      pop-Holds data' swap' (pushed s stored) pushed-IsStack (omega (arith, size))
      ∙ ap (λ bs. some (swap_endian swap' bs, popped (pushed s stored) (length data'))) read_back),
  ap (λ (v : ℕ). record s.regs { rsp = v }) back,
  refl,
  λ a. (
    λ low.
        clear-below filled (suc (s.regs.rsp - length stored)) (length data') a (omega (arith, size))
        ∙ fill-below s.mem.cells s.regs.rsp stored a (omega (arith, size)),
    λ high.
        clear-above filled (suc (s.regs.rsp - length stored)) (length data') a (omega (arith, size))
        ∙ fill-above s.mem.cells s.regs.rsp stored a high,
    λ low high.
        clear-within filled (suc (s.regs.rsp - length stored)) (length data') a
          (omega (arith, size)) (omega (arith, size)),
  ),
)
  where
    stored : List ℕ
    stored = swap_endian swap bytes

    filled : ℕ → ℕ
    filled = fill s.mem.cells s.regs.rsp stored

    size : length (swap_endian swap bytes) ≡ length bytes
    size = length-swap_endian swap bytes

    back : s.regs.rsp - length (swap_endian swap bytes) + length data' ≡ s.regs.rsp
    back = omega (arith, size)

    pushed-IsStack : IsStack (pushed s (swap_endian swap bytes))
    pushed-IsStack = omega (arith, size)

    read_back :
        block filled (s.regs.rsp - length (swap_endian swap bytes) + length data') (length data')
        ≡ swap_endian swap bytes
    read_back =
        rw (back, same, ← size) (block-fill s.mem.cells s.regs.rsp stored (omega (arith, size)))
