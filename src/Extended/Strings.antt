-- ===== src/Extended/Strings.antt =====
-- Registers/extended_symbols.cpp: strings that are stored in memory and measured or reversed there.
use virtual_processing_unit.Prelude.{
  ℕ, zero, suc, ◌+◌, ◌-◌, ◌≤◌, ◌<◌, ◌≡◌, ◌≢◌, refl, ap, subst, ◌∙◌, sym, arith, false, some, ◌>>=◌,
  List, [], ◌∷◌, ◌++◌, reverse, reverse-reverse, ◌==◌, length, length-append, length-reverse,
  length-replicate, All, bind-some,
}
use native.Mathlib.Decide.{dec_lt}
use virtual_processing_unit.Memory.{Memory, Machine, ms, mg}
use virtual_processing_unit.Memory.Heap.{
  IsAllocated, InRange, cells_from, cells_from-store, store, store-below, store-above, mg-ms,
  ms-InRange, mg-InRange,
}
use virtual_processing_unit.Args.{zeroed}
use virtual_processing_unit.Text.{Text}
use virtual_processing_unit.NativeMaths.{with_regs}
use virtual_processing_unit.MemorySymbols.{with_mem}
use virtual_processing_unit.Extended.{
  string_buffer, c_string, b_get_input, b_strlen, zero_index, b_rev_sr,
}

pub length-cells_from : (cells : ℕ → ℕ) (addr k : ℕ) → length (cells_from cells addr k) ≡ k
length-cells_from cells addr zero = refl
length-cells_from cells addr (suc k) = ap suc (length-cells_from cells (suc addr) k)

-- A string without a character 0.
abbrev pub IsCString : Text → Type 0
IsCString = All (λ c. c ≢ 0)

-- A string that fits is copied whole, with zeros behind it.
string_buffer-fits :
    (str : Text) (dest_len : ℕ)
    → length str < dest_len
    → string_buffer str dest_len ≡ some (str ++ zeroed (dest_len - length str))
unfolding string_buffer
string_buffer-fits str dest_len h = ground arith

pub length-zeroed : (n : ℕ) → length (zeroed n) ≡ n
length-zeroed n = length-replicate n nul
  where
    nul : ℕ
    nul = 0

length-buffer :
    (str : Text) (dest_len : ℕ)
    → length str < dest_len
    → length (str ++ zeroed (dest_len - length str)) ≡ dest_len
length-buffer str dest_len h = omega (
  arith,
  length-append str (zeroed (dest_len - length str)),
  length-zeroed (dest_len - length str),
)

not_zero : (c : ℕ) → c ≢ 0 → (c == 0) ≡ false
not_zero c ne = ground arith

zero_index-append :
    (str : Text) (k : ℕ) → IsCString str → 0 < k → zero_index (str ++ zeroed k) ≡ length str
unfolding zero_index
zero_index-append [] zero ok h = absurd (omega arith)
zero_index-append [] (suc k) ok h = refl
zero_index-append (c ∷ str) k (ne, ok) h =
    rw (not_zero c ne) (ap suc (zero_index-append str k ok h))

c_string-append :
    (str : Text) (k : ℕ) → IsCString str → 0 < k → c_string (str ++ zeroed k) ≡ some str
unfolding c_string
c_string-append [] zero ok h = absurd (omega arith)
c_string-append [] (suc k) ok h = refl
c_string-append (c ∷ str) k (ne, ok) h = rw (not_zero c ne, c_string-append str k ok h) refl

measured :
    (input : Text) (s : Machine) (m : Memory) (bytes : List ℕ)
    → string_buffer input s.regs.rsi ≡ some bytes
    → ms bytes s.regs.rdi s.mem ≡ some m
    → mg (zeroed s.regs.rsi) s.regs.rdi m ≡ some bytes
    → zero_index bytes ≡ length input
    → (b_get_input input s >>= b_strlen)
      ≡ some (with_regs (with_mem s m) (record s.regs { rsi = length input }))
unfolding b_get_input b_strlen
measured input s m bytes buffer stored read index = rw (buffer, stored, read, index) refl

-- A string that was typed and fits into its buffer is in memory; its length is what `b_strlen` finds,
-- and nothing else changes.
pub b_strlen-b_get_input :
    (input : Text) (s : Machine)
    → IsCString input
    → length input < s.regs.rsi
    → IsAllocated s.mem
    → InRange s.mem s.regs.rdi s.regs.rsi
    → (t : Machine) × ((b_get_input input s >>= b_strlen) ≡ some t)
      × (t.regs ≡ record s.regs { rsi = length input })
      × (t.calling_tree ≡ s.calling_tree)
b_strlen-b_get_input input s ok fits alloc_ok room =
    let bytes = input ++ zeroed (s.regs.rsi - length input) in
    let size = length-buffer input s.regs.rsi fits in
    let (back, others) =
      mg-ms bytes (zeroed s.regs.rsi) s.regs.rdi s.mem alloc_ok (omega (arith, size))
        (omega (arith, size)) (length-zeroed s.regs.rsi ∙ sym size) in
    let (m, stored, read) = bind-some (ms bytes s.regs.rdi s.mem) _ bytes back in
    (
      with_regs (with_mem s m) (record s.regs { rsi = length input }),
      measured input s m bytes (string_buffer-fits input s.regs.rsi fits) stored read
          (zero_index-append input (s.regs.rsi - length input) ok (omega arith)),
      refl,
      refl,
    )

reversed :
    (s : Machine) (temp : List ℕ) (m : Memory)
    → mg (zeroed s.regs.rsi) s.regs.rdi s.mem ≡ some temp
    → ms (reverse temp) s.regs.rdi s.mem ≡ some m
    → b_rev_sr s ≡ some (with_mem s m)
unfolding b_rev_sr
reversed s temp m read stored = rw (read, stored) refl

-- Memories that read the same in a range agree there.
cells_from-injective :
    (f g : ℕ → ℕ) (addr k a : ℕ)
    → cells_from f addr k ≡ cells_from g addr k
    → addr ≤ a
    → a < addr + k
    → f a ≡ g a
cells_from-injective f g addr zero a e low high = absurd (omega arith)
cells_from-injective f g addr (suc k) a e low high = elim (dec_lt addr a) [
  | yes later ↦
      let tail : cells_from f (suc addr) k ≡ cells_from g (suc addr) k = cc in
      cells_from-injective f g (suc addr) k a tail later (omega arith)
  | no here ↦
      let at : f addr ≡ g addr = cc in
      let same : addr ≡ a = omega arith in subst (λ b. f b ≡ g b) same at
]

-- Storing bytes, and then what was there before, brings every cell back.
store-back :
    (cells : ℕ → ℕ) (addr : ℕ) (bytes : List ℕ) (a : ℕ)
    → store (store cells addr bytes) addr (cells_from cells addr (length bytes)) a ≡ cells a
store-back cells addr bytes a =
    let back = cells_from cells addr (length bytes) in
    let size = length-cells_from cells addr (length bytes) in
    elim (dec_lt a addr) [
      | yes below ↦
          store-below (store cells addr bytes) addr back a below
          ∙ store-below cells addr bytes a below
      | no not_below ↦ elim (dec_lt a (addr + length bytes)) [
        | yes within ↦
            cells_from-injective (store (store cells addr bytes) addr back) cells addr
              (length bytes) a
              (ap (cells_from (store (store cells addr bytes) addr back) addr) (sym size)
                ∙ cells_from-store (store cells addr bytes) addr back)
              (omega arith) within
        | no above ↦
            store-above (store cells addr bytes) addr back a (omega (arith, size))
            ∙ store-above cells addr bytes a (omega arith)
      ]
    ]

-- The machine with the string of RDI and RSI reversed.
abbrev with_reversed : Machine → Machine
with_reversed s = with_mem s (record s.mem {
  cells = store s.mem.cells s.regs.rdi (reverse (cells_from s.mem.cells s.regs.rdi s.regs.rsi));
})

rev_step :
    (s : Machine)
    → IsAllocated s.mem
    → 0 < s.regs.rsi
    → InRange s.mem s.regs.rdi s.regs.rsi
    → b_rev_sr s ≡ some (with_reversed s)
rev_step s ok pos room =
    let text = cells_from s.mem.cells s.regs.rdi s.regs.rsi in
    let blank = length-zeroed s.regs.rsi in
    let size = length-reverse text ∙ length-cells_from s.mem.cells s.regs.rdi s.regs.rsi in
    reversed s text (with_reversed s).mem
      (mg-InRange (zeroed s.regs.rsi) s.regs.rdi s.mem ok (omega (arith, blank))
          (omega (arith, blank))
        ∙ ap (λ n. some (cells_from s.mem.cells s.regs.rdi n)) blank)
      (ms-InRange (reverse text) s.regs.rdi s.mem ok (omega (arith, size)) (omega (arith, size)))

twice_reversed :
    (cells : ℕ → ℕ) (addr n a : ℕ)
    → store
        (store cells addr (reverse (cells_from cells addr n)))
        addr
        (reverse (cells_from (store cells addr (reverse (cells_from cells addr n))) addr n))
        a
      ≡ cells a
twice_reversed cells addr n a =
    let text = cells_from cells addr n in
    let first = store cells addr (reverse text) in
    let size = length-reverse text ∙ length-cells_from cells addr n in
    let read : cells_from first addr n ≡ reverse text =
      ap (cells_from first addr) (sym size) ∙ cells_from-store cells addr (reverse text) in
    ap (λ bs. store first addr bs a)
      (ap reverse read ∙ reverse-reverse text ∙ ap (cells_from cells addr) (sym size))
    ∙ store-back cells addr (reverse text) a

-- Reversing a string in memory twice brings every cell back.
b_rev_sr-b_rev_sr :
    (s : Machine)
    → IsAllocated s.mem
    → 0 < s.regs.rsi
    → InRange s.mem s.regs.rdi s.regs.rsi
    → (t : Machine) × ((b_rev_sr s >>= b_rev_sr) ≡ some t)
      × (t.regs ≡ s.regs)
      × ((a : ℕ) → t.mem.cells a ≡ s.mem.cells a)
b_rev_sr-b_rev_sr s ok pos room = (
  with_reversed (with_reversed s),
  rw (rev_step s ok pos room)
      (rev_step (with_reversed s) (record { zone = ok.zone; small = ok.small }) pos room),
  refl,
  λ a. twice_reversed s.mem.cells s.regs.rdi s.regs.rsi a,
)
