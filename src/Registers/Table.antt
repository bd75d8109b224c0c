-- ===== src/Registers/Table.antt =====
-- `comn_registers_table`: which identifiers name a register.
use virtual_processing_unit.Prelude.{
  ℕ, zero, suc, ◌+◌, ◌<◌, ◌≤◌, ◌≡◌, refl, true, false, none, some, arith, ltb, get_elem?, lt→ltb,
  if◌then◌else◌, ◌-◌,
}
use virtual_processing_unit.Registers.{
  la, lb, lc, ld, NumReg, x, ex, rx, rbp, rsp, rdi, rsi, to_reg_id, is_num_reg, access_num, reg_id,
  letter_offset, num_regs,
}

-- The identifier of a register, read from memory as a word, names that register, and passes
-- `is_num_reg`.
pub access_num-reg_id :
    (n : NumReg)
    → (to_reg_id (reg_id n) ≡ reg_id n)
      × (is_num_reg (reg_id n) ≡ true)
      × (access_num (reg_id n) ≡ some n)
unfolding to_reg_id reg_id is_num_reg access_num letter_offset
access_num-reg_id (x la) = (refl, refl, refl)
access_num-reg_id (x lb) = (refl, refl, refl)
access_num-reg_id (x lc) = (refl, refl, refl)
access_num-reg_id (x ld) = (refl, refl, refl)
access_num-reg_id (ex la) = (refl, refl, refl)
access_num-reg_id (ex lb) = (refl, refl, refl)
access_num-reg_id (ex lc) = (refl, refl, refl)
access_num-reg_id (ex ld) = (refl, refl, refl)
access_num-reg_id (rx la) = (refl, refl, refl)
access_num-reg_id (rx lb) = (refl, refl, refl)
access_num-reg_id (rx lc) = (refl, refl, refl)
access_num-reg_id (rx ld) = (refl, refl, refl)
access_num-reg_id rbp = (refl, refl, refl)
access_num-reg_id rsp = (refl, refl, refl)
access_num-reg_id rdi = (refl, refl, refl)
access_num-reg_id rsi = (refl, refl, refl)

entry : (k : ℕ) → k < 16 → (n : NumReg) × (get_elem? num_regs k ≡ some n) × (reg_id n ≡ 9 + k)
unfolding reg_id letter_offset
entry zero h = (x la, refl, refl)
entry (suc zero) h = (x lb, refl, refl)
entry (suc (suc zero)) h = (x lc, refl, refl)
entry (suc (suc (suc zero))) h = (x ld, refl, refl)
entry (suc (suc (suc (suc zero)))) h = (ex la, refl, refl)
entry (suc (suc (suc (suc (suc zero))))) h = (ex lb, refl, refl)
entry (suc (suc (suc (suc (suc (suc zero)))))) h = (ex lc, refl, refl)
entry (suc (suc (suc (suc (suc (suc (suc zero))))))) h = (ex ld, refl, refl)
entry (suc (suc (suc (suc (suc (suc (suc (suc zero)))))))) h = (rx la, refl, refl)
entry (suc (suc (suc (suc (suc (suc (suc (suc (suc zero))))))))) h = (rx lb, refl, refl)
entry (suc (suc (suc (suc (suc (suc (suc (suc (suc (suc zero)))))))))) h = (rx lc, refl, refl)
entry (suc (suc (suc (suc (suc (suc (suc (suc (suc (suc (suc zero))))))))))) h = (rx ld, refl, refl)
entry (suc (suc (suc (suc (suc (suc (suc (suc (suc (suc (suc (suc zero)))))))))))) h =
    (rbp, refl, refl)
entry (suc (suc (suc (suc (suc (suc (suc (suc (suc (suc (suc (suc (suc zero))))))))))))) h =
    (rsp, refl, refl)
entry (suc (suc (suc (suc (suc (suc (suc (suc (suc (suc (suc (suc (suc (suc zero)))))))))))))) h =
    (rdi, refl, refl)
entry (suc (suc (suc (suc (suc (suc (suc (suc (suc (suc (suc (suc (suc (suc (suc zero)))))))))))))))
      h =
    (rsi, refl, refl)
entry
      (suc
        (suc (suc (suc (suc (suc (suc (suc (suc (suc (suc (suc (suc (suc (suc (suc k))))))))))))))))
      h =
    absurd (omega arith)

-- Of the identifiers that pass `is_num_reg`, those from `AX` on have the entry of their register in
-- the table, and those of `AL` to `DH` and 0 have none.
pub access_num-cases :
    (i : ℕ)
    → is_num_reg i ≡ true
    → (i < 9 → access_num i ≡ none)
      × (9 ≤ i → (n : NumReg) × (access_num i ≡ some n) × (reg_id n ≡ i))
unfolding is_num_reg access_num
access_num-cases i h =
    (λ low. rw (lt→ltb i 9 low), λ high. found high (entry (i - 9) (ground arith)))
  where
    not_low : 9 ≤ i → ltb i 9 ≡ false
    not_low high = ground arith

    found :
        9 ≤ i
        → (n : NumReg) × (get_elem? num_regs (i - 9) ≡ some n) × (reg_id n ≡ 9 + (i - 9))
        → (n : NumReg) × ((if ltb i 9 then none else get_elem? num_regs (i - 9)) ≡ some n)
          × (reg_id n ≡ i)
    found high (n, e, r) = (n, rw (not_low high) e, omega arith)
