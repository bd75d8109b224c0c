-- ===== src/Memory.antt =====
-- Memory/memory_decl.cpp and memory_decl.h: the memory of a process and its stack.
-- An access outside the allocated array is undefined behaviour, `none`.
pub mod Stack
pub mod Heap
pub mod Sdz
use virtual_processing_unit.Prelude.{
  ℕ, zero, suc, ◌+◌, ◌-◌, ◌%◌, ◌^◌, Bool, true, false, ◌||◌, Option, none, some, ◌>>=◌, List, [],
  ◌∷◌, ◌++◌, reverse, ltb, leb, ◌==◌, if◌then◌else◌, length, take, not, ◌&&◌,
}
use virtual_processing_unit.Bytes.{size_mod, add64, sub64}
use virtual_processing_unit.Registers.{Regs}

-- `memory`, less its registers and network streams: the bytes of `_memory`, `_memlen`, `sdzsize`
-- and `sdztop`.
pub record Memory : Type 0 where
  pub cells : ℕ → ℕ
  pub memlen : ℕ
  pub sdzsize : ℕ
  pub sdztop : ℕ

abbrev pub stacksize : ℕ
stacksize = 0x8000

-- `getMemLen`: the size of the allocated array.
unfoldable pub get_mem_len : Memory → ℕ
get_mem_len m = add64 m.sdzsize m.memlen

unfoldable pub update : (ℕ → ℕ) → ℕ → ℕ → ℕ → ℕ
update cells addr value a = if addr == a then value else cells a

-- `_memory[addr] = value` and `_memory[addr]`.
unfoldable pub write : Memory → ℕ → ℕ → Option Memory
write m addr value =
    if ltb addr (m.sdzsize + m.memlen)
    then some (record m { cells = update m.cells addr value })
    else none

unfoldable pub read : Memory → ℕ → Option ℕ
read m addr = if ltb addr (m.sdzsize + m.memlen) then some (m.cells addr) else none

unfoldable pub is_valid_push : ℕ → ℕ → ℕ → ℕ → ℕ → Bool
is_valid_push base top end bgn count =
    if ltb base top
    then false
    else if ltb top end
    then false
    else if leb bgn base
    then false
    else if leb base (sub64 top count) || ltb (sub64 top count) end
    then false
    else true

unfoldable pub is_valid_pop : ℕ → ℕ → ℕ → ℕ → ℕ → Bool
is_valid_pop base top end bgn count =
    if ltb base top
    then false
    else if ltb top end
    then false
    else if leb bgn base
    then false
    else if ltb base (add64 top count) || (ltb (add64 top count) end || ltb bgn (add64 top count))
    then false
    else true

-- The loop of `push`: `addr` goes down while `addr >= rsp - count`.
unfoldable pub push_loop : (limit addr : ℕ) → List ℕ → Memory → Option Memory
push_loop limit addr [] m = some m
push_loop limit addr (b ∷ bytes) m =
    let rest = λ (m' : Memory). push_loop limit (sub64 addr 1) bytes m' in
    if leb limit addr then write m addr b >>= rest else some m

-- The loop of `pop`: `addr` goes up while `addr <= rsp + count`, `oaddr` elements are still to be
-- read, and `acc` holds those that were. The buffer keeps what the loop does not reach.
unfoldable pub pop_loop :
    (limit addr oaddr : ℕ) (data' acc : List ℕ) → Memory → Option (List ℕ × Memory)
pop_loop limit addr zero data' acc m = some (acc, m)
pop_loop limit addr (suc oaddr) data' acc m =
    let rest = λ (b : ℕ) (m' : Memory). pop_loop limit (add64 addr 1) oaddr data' (b ∷ acc) m' in
    if leb addr limit
    then (do b ← read m addr; m' ← write m addr 0; rest b m')
    else some (take (suc oaddr) data' ++ acc, m)

-- `swap_endian` on a machine of little-endian order.
unfoldable pub swap_endian : Bool → List ℕ → List ℕ
swap_endian swap bytes = if swap then reverse bytes else bytes

-- A process: its registers, its memory, and the calling tree, last call first.
pub record Machine : Type 0 where
  pub regs : Regs
  pub mem : Memory
  pub calling_tree : List ℕ

-- `memory::push`. `count` is the length of the data. The callers drop their copy of the data.
unfoldable pub push : List ℕ → Bool → Machine → Option Machine
unfolding is_valid_push push_loop swap_endian
push bytes swap s =
    let r = s.regs in
    let count = length bytes in
    if is_valid_push r.rbp r.rsp r.rsend r.rsbgn count
    then (do
      mem' ← push_loop (sub64 r.rsp count) r.rsp (swap_endian swap bytes) s.mem
      some (record s { regs = record r { rsp = sub64 r.rsp count }; mem = mem' }))
    else some s

-- `memory::pop` into a buffer of `count` bytes.
unfoldable pub pop : List ℕ → Bool → Machine → Option (List ℕ × Machine)
unfolding is_valid_pop pop_loop swap_endian
pop data' swap s =
    let r = s.regs in
    let count = length data' in
    if is_valid_pop r.rbp r.rsp r.rsend r.rsbgn count
    then (do
      (bytes, mem') ← pop_loop (add64 r.rsp count) (add64 r.rsp 1) count data' [] s.mem
      some (
        swap_endian swap bytes,
        record s { regs = record r { rsp = add64 r.rsp count }; mem = mem' },
      ))
    else some (data', s)

-- The loops of `_MS` and `_MG`: `i` goes up while `i < addr + count`.
unfoldable pub ms_loop : (limit i : ℕ) → List ℕ → Memory → Option Memory
ms_loop limit i [] m = some m
ms_loop limit i (b ∷ bytes) m =
    let rest = λ (m' : Memory). ms_loop limit (add64 i 1) bytes m' in
    if ltb i limit then write m i b >>= rest else some m

unfoldable pub mg_loop : (limit i : ℕ) → List ℕ → Memory → Option (List ℕ)
mg_loop limit i [] m = some []
mg_loop limit i (b ∷ data') m =
    let rest = mg_loop limit (add64 i 1) data' m in
    if ltb i limit then (do v ← read m i; vs ← rest; some (v ∷ vs)) else some (b ∷ data')

-- `_MS(data, count, addr)`, where `count` is the length of the data.
unfoldable pub ms : List ℕ → ℕ → Memory → Option Memory
unfolding ms_loop
ms bytes addr m =
    if ltb m.memlen (sub64 (add64 addr (length bytes)) 1)
    then some m
    else ms_loop (add64 addr (length bytes)) addr bytes m

-- `_MG(data, count, addr)`: what the buffer holds afterwards.
unfoldable pub mg : List ℕ → ℕ → Memory → Option (List ℕ)
unfolding mg_loop
mg data' addr m =
    if ltb m.memlen (sub64 (add64 addr (length data')) 1)
    then some data'
    else mg_loop (add64 addr (length data')) addr data' m

-- `_MRSZ`. A size past the range of `size_t` allocates too little for the copy.
unfoldable pub mrsz : ℕ → Memory → Option Memory
unfolding get_mem_len
mrsz newlen m =
    if ltb m.memlen newlen
    then (if ltb (newlen + m.sdzsize) size_mod
        then some (record m {
          cells = λ a. if ltb a (get_mem_len m) then m.cells a else 0;
          memlen = newlen;
        })
        else none)
    else some m

-- `_SDZRSZ`. `fresh` is what the new array holds before it is written.
unfoldable pub sdzrsz : (fresh : ℕ → ℕ) → Memory → Memory
unfolding get_mem_len
sdzrsz fresh m =
    if ltb m.sdzsize (add64 m.sdzsize 0x1000)
    then record m {
      cells = λ a.
          if leb m.sdzsize a && ltb a (m.sdzsize + 0x1000)
          then 0
          else if ltb a (get_mem_len m)
          then m.cells a
          else fresh a;
      sdzsize = add64 m.sdzsize 0x1000;
    }
    else m

-- The loop of `_SDZS`, from `sdztop` on.
unfoldable pub sdzs_loop : ℕ → List ℕ → Memory → Option Memory
sdzs_loop addr [] m = some m
sdzs_loop addr (b ∷ bytes) m = write m addr b >>= sdzs_loop (add64 addr 1) bytes

-- `_SDZS(data, count)`.
unfoldable pub sdzs : (fresh : ℕ → ℕ) → List ℕ → Memory → Option Memory
unfolding sdzs_loop
sdzs fresh bytes m =
    let m₁ =
      if ltb (sub64 (add64 m.sdztop (length bytes)) 1) m.sdzsize then m else sdzrsz fresh m in
    do m₂ ← sdzs_loop m.sdztop bytes m₁; some (record m₂ { sdztop = add64 m.sdztop (length bytes) })

-- `memory::init`.
unfoldable pub init : Memory
init = record { cells = λ a. 0; memlen = 0x100000; sdzsize = 4096; sdztop = 0 }
