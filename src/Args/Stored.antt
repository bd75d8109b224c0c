-- ===== src/Args/Stored.antt =====
-- The arguments that the loader keeps in the static data zone, as the handlers read them.
use virtual_processing_unit.Prelude.{
  ℕ, ◌+◌, ◌≤◌, ◌<◌, ◌≡◌, refl, ap, ◌∙◌, sym, arith, some, List, length,
}
use virtual_processing_unit.Bytes.{ulltoa, atoull, word_size, size_mod}
use virtual_processing_unit.Bytes.Words.{ulltoa-IsWord, atoull-ulltoa}
use virtual_processing_unit.Registers.{to_reg_id}
use virtual_processing_unit.Memory.{Memory, sdzs}
use virtual_processing_unit.Memory.Heap.{
  IsAllocated, InRange, cells_from, cells_from-congr, mg-InRange,
}
use virtual_processing_unit.Memory.Sdz.{IsZone, sdzs-IsZone}
use virtual_processing_unit.Args.{ArgTuple, Host, zeroed, att_to_reg_id, arg_to_ull}
use virtual_processing_unit.VirtualActions.{VirtualAction}
use virtual_processing_unit.Loader.{Action, keep}

-- The word that lies at `addr`.
abbrev pub word_at : Memory → ℕ → ℕ
word_at m addr = atoull (cells_from m.cells addr word_size)

-- A handler that reads a register finds the identifier in the word at its argument.
pub att_to_reg_id-InRange :
    (arg : ArgTuple) (m : Memory)
    → IsAllocated m
    → InRange m arg.vaddr word_size
    → att_to_reg_id arg m ≡ some (to_reg_id (word_at m arg.vaddr))
unfolding att_to_reg_id
att_to_reg_id-InRange arg m ok h =
    rw (mg-InRange (zeroed word_size) arg.vaddr m ok (omega arith) h) refl

-- It finds the same in every memory with the same word.
pub att_to_reg_id-frame :
    (arg : ArgTuple) (m m' : Memory)
    → IsAllocated m
    → IsAllocated m'
    → InRange m arg.vaddr word_size
    → InRange m' arg.vaddr word_size
    → ((a : ℕ) → arg.vaddr ≤ a → a < arg.vaddr + word_size → m'.cells a ≡ m.cells a)
    → att_to_reg_id arg m' ≡ att_to_reg_id arg m
att_to_reg_id-frame arg m m' ok ok' h h' same =
    att_to_reg_id-InRange arg m' ok' h'
    ∙ ap (λ bs. some (to_reg_id (atoull bs)))
        (cells_from-congr m'.cells m.cells arg.vaddr word_size same)
    ∙ sym (att_to_reg_id-InRange arg m ok h)

-- The argument of an action that the loader keeps, at the old top of the zone.
abbrev pub kept_arg : Memory → ℕ → ArgTuple
kept_arg m opt = record { vaddr = m.sdztop; vsize = word_size; vopt = opt }

kept_reads :
    (m m' : Memory) (opt v : ℕ)
    → v < size_mod
    → IsAllocated m'
    → InRange m' m.sdztop word_size
    → cells_from m'.cells m.sdztop word_size ≡ ulltoa v
    → (att_to_reg_id (kept_arg m opt) m' ≡ some (to_reg_id v))
      × ((host : Host)
          → length (host.uninit word_size) ≡ word_size
          → arg_to_ull host (kept_arg m opt) m' ≡ some v)
unfolding arg_to_ull
kept_reads m m' opt v small ok room new = (
  att_to_reg_id-InRange (kept_arg m opt) m' ok room ∙ ap (λ (w : ℕ). some (to_reg_id w)) word,
  λ host size.
      rw
        (mg-InRange (host.uninit word_size) m.sdztop m' ok (omega (arith, size))
            (omega (arith, size))
          ∙ ap (λ n. some (cells_from m'.cells m.sdztop n)) size)
        (ap (λ (w : ℕ). some w) word),
)
  where
    word : atoull (cells_from m'.cells m.sdztop word_size) ≡ v
    word = ap atoull new ∙ atoull-ulltoa v small

sdzs-word :
    (fresh : ℕ → ℕ) (bytes : List ℕ) (m : Memory)
    → IsZone m
    → length bytes ≡ word_size
    → InRange m m.sdztop word_size
    → (m' : Memory) × (sdzs fresh bytes m ≡ some m')
      × IsAllocated m'
      × InRange m' m.sdztop word_size
      × (cells_from m'.cells m.sdztop word_size ≡ bytes)
sdzs-word fresh bytes m zone size room =
    let (m', e, top, top_in, len, grown, new, old) =
      sdzs-IsZone fresh bytes m zone (omega (arith, size)) (omega (arith, size)) in
    (
      m',
      e,
      record { zone = omega (arith, size); small = omega arith },
      omega arith,
      ap (cells_from m'.cells m.sdztop) (sym size) ∙ new,
    )

-- A register, or a number, that the loader keeps for an action is what the action's handler reads.
pub keep-att_to_reg_id :
    (fresh : ℕ → ℕ) (act : VirtualAction) (opt v : ℕ) (rest : List ℕ) (m : Memory)
    → IsZone m
    → InRange m m.sdztop word_size
    → v < size_mod
    → (m' : Memory) × (keep fresh act opt (ulltoa v) rest m
        ≡ some (record { act = act; value_ptr = some (kept_arg m opt) }, rest, m'))
      × (att_to_reg_id (kept_arg m opt) m' ≡ some (to_reg_id v))
      × ((host : Host)
          → length (host.uninit word_size) ≡ word_size
          → arg_to_ull host (kept_arg m opt) m' ≡ some v)
unfolding keep
keep-att_to_reg_id fresh act opt v rest m zone room small =
    let (m', e, ok, room', new) = sdzs-word fresh (ulltoa v) m zone (ulltoa-IsWord v).0 room in
    let (reg, number) = kept_reads m m' opt v small ok room' new in
    (m', rw e (ap (λ (n : ℕ). some (kept act n, rest, m')) (ulltoa-IsWord v).0), reg, number)
  where
    kept : VirtualAction → ℕ → Action
    kept a n = record {
      act = a;
      value_ptr = some (record { vaddr = m.sdztop; vsize = n; vopt = opt });
    }
