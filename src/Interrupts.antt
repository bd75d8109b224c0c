-- ===== src/Interrupts.antt =====
-- Actions/interrupts.cpp: `_intcall`, `interrupts::pass` and the handlers that choose by AL.
use virtual_processing_unit.Prelude.{
  ℕ, ◌%◌, Option, none, some, ◌>>=◌, List, [], ◌∷◌, ◌++◌, ◌==◌, if◌then◌else◌,
}
use virtual_processing_unit.Registers.{get_num, rx, la}
use virtual_processing_unit.Memory.{Machine}
use virtual_processing_unit.Floats.{FloatUnit}
use virtual_processing_unit.Args.{ArgTuple, Host, arg_to_ull}
use virtual_processing_unit.Text.{Text}
use virtual_processing_unit.Extended.{
  FloatText, b_get_input, b_strlen, b_print, b_recast, b_from_string, b_fp_to_sr, b_fp_to_ull,
}

-- The terminal: the texts that will be typed, and what was written.
pub record Console : Type 0 where
  pub input : List Text
  pub output : Text

-- A handler that leaves the terminal alone.
abbrev pub silent : Console → Option Machine → Option (Machine × Console)
silent c s = do s' ← s; some (s', c)

-- `b_getInput`, with the next text that is typed; with none it would wait for ever.
unfoldable pub get_input : Console → Machine → Option (Machine × Console)
get_input c s = elim c.input [
  | [] ↦ none
  | text ∷ rest ↦ silent (record c { input = rest }) (b_get_input text s)
]

-- `handle_display`: `b_print`, `b_println` and `b_printEOL`.
unfoldable pub handle_display : Console → Machine → Option (Machine × Console)
handle_display c s =
    let int_call = get_num (rx la) s.regs % 256 in
    if int_call == 0
    then (do text ← b_print s; some (s, record c { output = c.output ++ text }))
    else if int_call == 1
    then (do text ← b_print s; some (s, record c { output = c.output ++ text ++ 10 ∷ [] }))
    else if int_call == 2
    then some (s, record c { output = c.output ++ 10 ∷ [] })
    else some (s, c)

module _ (unit : FloatUnit) (float_text : FloatText) where
  -- `handle_conversion`. The first two conversions are handed a null pointer for the memory, which
  -- they follow.
  unfoldable pub handle_conversion : Machine → Option Machine
  handle_conversion s =
      let int_call = s.regs.a.l in
      if int_call == 0
      then none
      else if int_call == 1
      then none
      else if int_call == 2
      then b_fp_to_sr unit float_text s
      else if int_call == 3
      then b_fp_to_ull unit float_text s
      else if int_call == 4
      then b_fp_to_ull unit float_text s
      else some s

  module _ (host : Host) where
    -- `pass`. A code without a handler calls a null pointer.
    unfoldable pub pass : ℕ → Console → Machine → Option (Machine × Console)
    unfolding get_input handle_display handle_conversion
    pass code c s =
        if s.regs.interrupts_flag
        then (if code == 0x01
            then get_input c s
            else if code == 0x04
            then silent c (b_strlen s)
            else if code == 0x05
            then handle_display c s
            else if code == 0x06
            then silent c (b_recast host s)
            else if code == 0x07
            then silent c (b_from_string unit float_text s)
            else if code == 0x08
            then silent c (handle_conversion s)
            else none)
        else some (s, c)

    -- `_intcall`.
    unfoldable pub int_call : ArgTuple → Console → Machine → Option (Machine × Console)
    unfolding pass
    int_call arg c s =
        if s.regs.interrupts_flag
        then (do intcode ← arg_to_ull host arg s.mem; pass (intcode % 256) c s)
        else some (s, c)
