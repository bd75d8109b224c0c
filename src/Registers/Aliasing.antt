-- ===== src/Registers/Aliasing.antt =====
-- What a write to one register does to the registers that share its storage, and to the others.
use virtual_processing_unit.Prelude.{ℕ, ◌+◌, ◌%◌, ◌^◌, ◌<◌, ◌≡◌, ◌≢◌, refl, arith, ap, sym}
use virtual_processing_unit.Registers.{
  Storage, get_extended, get_extended_ex, get_extended_eex, Regs, Letter, la, lb, lc, ld, NumReg, x,
  ex, rx, rbp, rsp, rdi, rsi, storage, set_storage, get_num, set_num, letter_offset,
}

-- Every part of the storage fits its C type.
pub record StorageFits (s : Storage) : Type 0 where
  pub l_fits : s.l < 2 ^ 8
  pub h_fits : s.h < 2 ^ 8
  pub eh_fits : s.eh < 2 ^ 16
  pub rh_fits : s.rh < 2 ^ 32

pub record RegsFit (r : Regs) : Type 0 where
  pub a_fits : StorageFits r.a
  pub b_fits : StorageFits r.b
  pub c_fits : StorageFits r.c
  pub d_fits : StorageFits r.d
  pub rbp_fits : r.rbp < 2 ^ 64
  pub rsp_fits : r.rsp < 2 ^ 64
  pub rdi_fits : r.rdi < 2 ^ 64
  pub rsi_fits : r.rsi < 2 ^ 64

-- The number of values of a register.
abbrev pub capacity : NumReg → ℕ
capacity (x g) = 2 ^ 16
capacity (ex g) = 2 ^ 32
capacity _ = 2 ^ 64

storage-set_storage : (g : Letter) (s : Storage) (r : Regs) → storage g (set_storage g s r) ≡ s
unfolding storage set_storage
storage-set_storage la s r = refl
storage-set_storage lb s r = refl
storage-set_storage lc s r = refl
storage-set_storage ld s r = refl

-- A register reads back what was written to it, cut to the register's width.
pub get_num-set_num : (n : NumReg) (v : ℕ) (r : Regs) → get_num n (set_num n v r) ≡ v % capacity n
unfolding get_num set_num
get_num-set_num (x la) v r = omega arith
get_num-set_num (x lb) v r = omega arith
get_num-set_num (x lc) v r = omega arith
get_num-set_num (x ld) v r = omega arith
get_num-set_num (ex la) v r = omega arith
get_num-set_num (ex lb) v r = omega arith
get_num-set_num (ex lc) v r = omega arith
get_num-set_num (ex ld) v r = omega arith
get_num-set_num (rx la) v r = omega arith
get_num-set_num (rx lb) v r = omega arith
get_num-set_num (rx lc) v r = omega arith
get_num-set_num (rx ld) v r = omega arith
get_num-set_num rbp v r = refl
get_num-set_num rsp v r = refl
get_num-set_num rdi v r = refl
get_num-set_num rsi v r = refl

-- `EAX` is the lower half of `RAX`, and `AX` that of `EAX`.
pub get_num-low :
    (g : Letter) (r : Regs)
    → StorageFits (storage g r)
    → (get_num (ex g) r ≡ get_num (rx g) r % 2 ^ 32) × (get_num (x g) r ≡ get_num (ex g) r % 2 ^ 16)
unfolding get_num
get_num-low g r fits = omega arith

-- A write to `AX` or `EAX` keeps the upper bits of `RAX`.
pub get_num-set_num_narrow :
    (g : Letter) (v : ℕ) (r : Regs)
    → (get_num (rx g) (set_num (x g) v r) + get_num (x g) r ≡ get_num (rx g) r + v % 2 ^ 16)
      × (get_num (rx g) (set_num (ex g) v r) + get_num (ex g) r ≡ get_num (rx g) r + v % 2 ^ 32)
unfolding get_num set_num
get_num-set_num_narrow la v r = omega arith
get_num-set_num_narrow lb v r = omega arith
get_num-set_num_narrow lc v r = omega arith
get_num-set_num_narrow ld v r = omega arith

-- Registers with the same home share storage.
unfoldable pub home : NumReg → ℕ
home (x g) = letter_offset g
home (ex g) = letter_offset g
home (rx g) = letter_offset g
home rbp = 4
home rsp = 5
home rdi = 6
home rsi = 7

storage-set_storage_ne :
    (g h : Letter) (s : Storage) (r : Regs)
    → letter_offset g ≢ letter_offset h
    → storage h (set_storage g s r) ≡ storage h r
unfolding storage set_storage letter_offset
storage-set_storage_ne la la s r ne = absurd (ne refl)
storage-set_storage_ne la lb s r ne = refl
storage-set_storage_ne la lc s r ne = refl
storage-set_storage_ne la ld s r ne = refl
storage-set_storage_ne lb la s r ne = refl
storage-set_storage_ne lb lb s r ne = absurd (ne refl)
storage-set_storage_ne lb lc s r ne = refl
storage-set_storage_ne lb ld s r ne = refl
storage-set_storage_ne lc la s r ne = refl
storage-set_storage_ne lc lb s r ne = refl
storage-set_storage_ne lc lc s r ne = absurd (ne refl)
storage-set_storage_ne lc ld s r ne = refl
storage-set_storage_ne ld la s r ne = refl
storage-set_storage_ne ld lb s r ne = refl
storage-set_storage_ne ld lc s r ne = refl
storage-set_storage_ne ld ld s r ne = absurd (ne refl)

get_num-set_storage_ne :
    (g : Letter) (m : NumReg) (s : Storage) (r : Regs)
    → letter_offset g ≢ home m
    → get_num m (set_storage g s r) ≡ get_num m r
unfolding home get_num set_storage
get_num-set_storage_ne g (x h) s r ne = ap get_extended (storage-set_storage_ne g h s r ne)
get_num-set_storage_ne g (ex h) s r ne = ap get_extended_ex (storage-set_storage_ne g h s r ne)
get_num-set_storage_ne g (rx h) s r ne = ap get_extended_eex (storage-set_storage_ne g h s r ne)
get_num-set_storage_ne la rbp s r ne = refl
get_num-set_storage_ne lb rbp s r ne = refl
get_num-set_storage_ne lc rbp s r ne = refl
get_num-set_storage_ne ld rbp s r ne = refl
get_num-set_storage_ne la rsp s r ne = refl
get_num-set_storage_ne lb rsp s r ne = refl
get_num-set_storage_ne lc rsp s r ne = refl
get_num-set_storage_ne ld rsp s r ne = refl
get_num-set_storage_ne la rdi s r ne = refl
get_num-set_storage_ne lb rdi s r ne = refl
get_num-set_storage_ne lc rdi s r ne = refl
get_num-set_storage_ne ld rdi s r ne = refl
get_num-set_storage_ne la rsi s r ne = refl
get_num-set_storage_ne lb rsi s r ne = refl
get_num-set_storage_ne lc rsi s r ne = refl
get_num-set_storage_ne ld rsi s r ne = refl

storage-congr :
    (g : Letter) (r r' : Regs)
    → (r.a ≡ r'.a) × (r.b ≡ r'.b) × (r.c ≡ r'.c) × (r.d ≡ r'.d)
    → storage g r ≡ storage g r'
unfolding storage
storage-congr la r r' e = e.0
storage-congr lb r r' e = e.1
storage-congr lc r r' e = e.2
storage-congr ld r r' e = e.3

-- A register that only `RBP`, `RSP`, `RDI` or `RSI` tells apart from another state.
get_num-congr :
    (m : NumReg) (r r' : Regs)
    → (r.a ≡ r'.a) × (r.b ≡ r'.b) × (r.c ≡ r'.c) × (r.d ≡ r'.d)
    → (home m ≡ 4 → r.rbp ≡ r'.rbp)
    → (home m ≡ 5 → r.rsp ≡ r'.rsp)
    → (home m ≡ 6 → r.rdi ≡ r'.rdi)
    → (home m ≡ 7 → r.rsi ≡ r'.rsi)
    → get_num m r ≡ get_num m r'
unfolding home get_num
get_num-congr (x g) r r' e p q u v = ap get_extended (storage-congr g r r' e)
get_num-congr (ex g) r r' e p q u v = ap get_extended_ex (storage-congr g r r' e)
get_num-congr (rx g) r r' e p q u v = ap get_extended_eex (storage-congr g r r' e)
get_num-congr rbp r r' e p q u v = p refl
get_num-congr rsp r r' e p q u v = q refl
get_num-congr rdi r r' e p q u v = u refl
get_num-congr rsi r r' e p q u v = v refl

-- A write to one register leaves every register with another home as it was.
pub get_num-set_num_ne :
    (n m : NumReg) (v : ℕ) (r : Regs) → home n ≢ home m → get_num m (set_num n v r) ≡ get_num m r
unfolding set_num home
get_num-set_num_ne (x g) m v r ne = get_num-set_storage_ne g m _ r ne
get_num-set_num_ne (ex g) m v r ne = get_num-set_storage_ne g m _ r ne
get_num-set_num_ne (rx g) m v r ne = get_num-set_storage_ne g m _ r ne
get_num-set_num_ne rbp m v r ne =
    get_num-congr m _ r (refl, refl, refl, refl) (λ e. absurd (ne (sym e))) (λ _. refl) (λ _. refl)
      (λ _. refl)
get_num-set_num_ne rsp m v r ne =
    get_num-congr m _ r (refl, refl, refl, refl) (λ _. refl) (λ e. absurd (ne (sym e))) (λ _. refl)
      (λ _. refl)
get_num-set_num_ne rdi m v r ne =
    get_num-congr m _ r (refl, refl, refl, refl) (λ _. refl) (λ _. refl) (λ e. absurd (ne (sym e)))
      (λ _. refl)
get_num-set_num_ne rsi m v r ne =
    get_num-congr m _ r (refl, refl, refl, refl) (λ _. refl) (λ _. refl) (λ _. refl)
      (λ e. absurd (ne (sym e)))

-- Every write keeps the registers within their C types.
pub set_num-RegsFit : (n : NumReg) (v : ℕ) (r : Regs) → RegsFit r → RegsFit (set_num n v r)
unfolding set_num
set_num-RegsFit (x la) v r fits = omega arith
set_num-RegsFit (x lb) v r fits = omega arith
set_num-RegsFit (x lc) v r fits = omega arith
set_num-RegsFit (x ld) v r fits = omega arith
set_num-RegsFit (ex la) v r fits = omega arith
set_num-RegsFit (ex lb) v r fits = omega arith
set_num-RegsFit (ex lc) v r fits = omega arith
set_num-RegsFit (ex ld) v r fits = omega arith
set_num-RegsFit (rx la) v r fits = omega arith
set_num-RegsFit (rx lb) v r fits = omega arith
set_num-RegsFit (rx lc) v r fits = omega arith
set_num-RegsFit (rx ld) v r fits = omega arith
set_num-RegsFit rbp v r fits = omega arith
set_num-RegsFit rsp v r fits = omega arith
set_num-RegsFit rdi v r fits = omega arith
set_num-RegsFit rsi v r fits = omega arith

-- The value of a register fits its width.
pub get_num-lt : (n : NumReg) (r : Regs) → RegsFit r → get_num n r < capacity n
unfolding get_num
get_num-lt (x la) r fits = omega arith
get_num-lt (x lb) r fits = omega arith
get_num-lt (x lc) r fits = omega arith
get_num-lt (x ld) r fits = omega arith
get_num-lt (ex la) r fits = omega arith
get_num-lt (ex lb) r fits = omega arith
get_num-lt (ex lc) r fits = omega arith
get_num-lt (ex ld) r fits = omega arith
get_num-lt (rx la) r fits = omega arith
get_num-lt (rx lb) r fits = omega arith
get_num-lt (rx lc) r fits = omega arith
get_num-lt (rx ld) r fits = omega arith
get_num-lt rbp r fits = omega arith
get_num-lt rsp r fits = omega arith
get_num-lt rdi r fits = omega arith
get_num-lt rsi r fits = omega arith
