-- ===== src/Tests/Registers.antt =====
-- Registers at concrete values.
use virtual_processing_unit.Prelude.{◌≤◌, ◌<◌, ◌≡◌, ◌≢◌, refl, arith, true, none, some}
use virtual_processing_unit.Registers.{
  la, lb, x, ex, rx, get_num, set_num, is_num_reg, access_num, reg_id, NumReg, letter_offset,
}
use virtual_processing_unit.Registers.Aliasing.{RegsFit, get_num-set_num_ne, set_num-RegsFit, home}
use virtual_processing_unit.Registers.Table.{access_num-cases}
use virtual_processing_unit.Tests.Memory.{some_regs}

pub some_regs-RegsFit : RegsFit some_regs
some_regs-RegsFit = omega arith

a_not_b : home (ex la) ≢ home (rx lb)
unfolding home letter_offset
a_not_b = omega arith

get_num-set_num_ne_example :
    get_num (rx lb) (set_num (ex la) 9 some_regs) ≡ get_num (rx lb) some_regs
get_num-set_num_ne_example = get_num-set_num_ne (ex la) (rx lb) 9 some_regs a_not_b

set_num-RegsFit_example : RegsFit (set_num (x la) 70000 some_regs)
set_num-RegsFit_example = set_num-RegsFit (x la) 70000 some_regs some_regs-RegsFit

num_17 : is_num_reg 17 ≡ true
unfolding is_num_reg
num_17 = refl

access_num-cases_example :
    (17 < 9 → access_num 17 ≡ none)
    × (9 ≤ 17 → (n : NumReg) × (access_num 17 ≡ some n) × (reg_id n ≡ 17))
access_num-cases_example = access_num-cases 17 num_17
