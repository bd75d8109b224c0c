-- ===== src/ActionsEngine.antt =====
-- Actions/actions_symbols.h: `actions_engine`, the table of the actions' handlers. The handlers of
-- the networking actions, which talk to another thread, are a parameter.
pub mod Terminal
pub mod Effects
pub mod Control
use virtual_processing_unit.Prelude.{
  Bool, true, not, ltb, ◌==◌, Option, none, some, ◌>>=◌, if◌then◌else◌,
}
use virtual_processing_unit.Memory.{Machine}
use virtual_processing_unit.Floats.{FloatUnit}
use virtual_processing_unit.Args.{ArgTuple, Host}
use virtual_processing_unit.VirtualActions.{
  VirtualAction, int, set, mov, inc, dec, mul, div, add, sub, to_string, castreg, bit_not, bit_and,
  bit_or, bit_xor, shl, shr, log, log2, log10, pow, dlog, dlog2, dlog10, dpow, push, pop, push_cr,
  pop_cr, push_fp, pop_fp, movsm, movgm, movsm_cr, movgm_cr, movsm_fp, movgm_fp, sdzs, jmp, cmp, je,
  jne, jl, jg, jle, jge, cmpdbl, gca, cli, sti, hlt, call, lcall, ret, svcall, rscall, nopen,
  nclose, nget, nsend, nhrecv, ncrtep, nselep, rfread, rfwrite, rflen,
}
use virtual_processing_unit.NativeMaths.{b_set, b_mov, b_inc, b_dec, b_mul, b_div, b_add, b_sub}
use virtual_processing_unit.NativeBinary.{
  b_not, b_and, b_or, b_xor, b_shl, b_shr, b_log, b_log2, b_log10, b_dlog, b_dlog2, b_dlog10,
  b_dpow, b_pow,
}
use virtual_processing_unit.MemorySymbols.{
  sdzs_mem, push_mem, pop_mem, push_mem_cr, pop_mem_cr, push_mem_fpr, pop_mem_fpr,
  movsm as set_memory, movgm as get_memory, movsm_cr as set_memory_cr, movgm_cr as get_memory_cr,
  movsm_fpr, movgm_fpr,
}
use virtual_processing_unit.ProcessSymbols.{
  p_cmp, p_jmp, p_je, p_jne, p_jl, p_jg, p_jle, p_jge, p_call, p_lcall, p_ret, p_svcall, p_rscall,
  p_gca, p_hlt, p_sti, p_cli, p_cmpdbl,
}
use virtual_processing_unit.Extended.{b_to_string, b_castreg, FloatText}
use virtual_processing_unit.Files.{FileSystem, ex_rfread, ex_rfwrite, ex_rflen}
use virtual_processing_unit.Interrupts.{int_call}
use virtual_processing_unit.Loader.{Action}
use virtual_processing_unit.Engine.{Outside}

-- A handler that follows the pointer to its argument, or follows it only if `reads` holds and does
-- nothing otherwise: to follow a null pointer is undefined behaviour.
abbrev pub with_arg_if :
    {A : Type 0} → Bool → Option ArgTuple → A → (ArgTuple → Option A) → Option A
with_arg_if reads none s handler = if reads then none else some s
with_arg_if reads (some arg) s handler = handler arg

abbrev pub with_arg :
    Option ArgTuple → Machine → (ArgTuple → Machine → Option Machine) → Option Machine
with_arg value_ptr s handler = with_arg_if true value_ptr s (λ arg. handler arg s)

-- A handler that leaves the terminal and the files alone.
abbrev pub within : Outside → Option Machine → Option (Machine × Outside)
within o m = do s ← m; some (s, o)

module _ (unit : FloatUnit) (float_text : FloatText) (host : Host)
    (network : VirtualAction → ArgTuple → Machine → Option Machine) where
  -- The table that `init` fills. `int` has no entry, and `rfwrite`, which changes the files, is apart.
  unfoldable pub handler : VirtualAction → Option ArgTuple → FileSystem → Machine → Option Machine
  handler int value_ptr f s = none
  handler rfwrite value_ptr f s = none
  handler set value_ptr f s = with_arg value_ptr s (b_set unit host)
  handler mov value_ptr f s = with_arg value_ptr s (b_mov unit)
  handler inc value_ptr f s = with_arg value_ptr s (b_inc unit)
  handler dec value_ptr f s = with_arg value_ptr s (b_dec unit)
  handler mul value_ptr f s = with_arg value_ptr s (b_mul unit)
  handler div value_ptr f s = with_arg value_ptr s (b_div unit)
  handler add value_ptr f s = with_arg value_ptr s (b_add unit)
  handler sub value_ptr f s = with_arg value_ptr s (b_sub unit)
  handler to_string value_ptr f s = with_arg value_ptr s b_to_string
  handler castreg value_ptr f s = with_arg value_ptr s (b_castreg host)
  handler bit_not value_ptr f s = with_arg value_ptr s b_not
  handler bit_and value_ptr f s = with_arg value_ptr s (b_and host)
  handler bit_or value_ptr f s = with_arg value_ptr s (b_or host)
  handler bit_xor value_ptr f s = with_arg value_ptr s (b_xor host)
  handler shl value_ptr f s = with_arg value_ptr s (b_shl host)
  handler shr value_ptr f s = with_arg value_ptr s (b_shr host)
  handler log value_ptr f s = with_arg value_ptr s (b_log unit)
  handler log2 value_ptr f s = with_arg value_ptr s (b_log2 unit)
  handler log10 value_ptr f s = with_arg value_ptr s (b_log10 unit)
  handler pow value_ptr f s = with_arg value_ptr s (b_pow unit host)
  handler dlog value_ptr f s = with_arg value_ptr s (b_dlog unit)
  handler dlog2 value_ptr f s = with_arg value_ptr s (b_dlog2 unit)
  handler dlog10 value_ptr f s = with_arg value_ptr s (b_dlog10 unit)
  handler dpow value_ptr f s = with_arg value_ptr s (b_dpow unit)
  handler push value_ptr f s = with_arg value_ptr s push_mem
  handler pop value_ptr f s = with_arg value_ptr s pop_mem
  handler push_cr value_ptr f s = push_mem_cr s
  handler pop_cr value_ptr f s = pop_mem_cr host s
  handler push_fp value_ptr f s = with_arg value_ptr s (push_mem_fpr unit)
  handler pop_fp value_ptr f s = with_arg value_ptr s (pop_mem_fpr unit host)
  handler movsm value_ptr f s = with_arg value_ptr s set_memory
  handler movgm value_ptr f s = with_arg value_ptr s get_memory
  handler movsm_cr value_ptr f s = with_arg value_ptr s set_memory_cr
  handler movgm_cr value_ptr f s = with_arg value_ptr s (get_memory_cr host)
  handler movsm_fp value_ptr f s = with_arg value_ptr s (movsm_fpr unit)
  handler movgm_fp value_ptr f s = with_arg value_ptr s (movgm_fpr unit host)
  handler sdzs value_ptr f s =
      with_arg_if (s.regs.exec_level == 0) value_ptr s (λ arg. (sdzs_mem arg s))
  handler jmp value_ptr f s = with_arg value_ptr s (p_jmp host)
  handler cmp value_ptr f s = p_cmp host s
  handler je value_ptr f s = with_arg value_ptr s (p_je host)
  handler jne value_ptr f s = with_arg value_ptr s (p_jne host)
  handler jl value_ptr f s = with_arg value_ptr s (p_jl host)
  handler jg value_ptr f s = with_arg value_ptr s (p_jg host)
  handler jle value_ptr f s = with_arg value_ptr s (p_jle host)
  handler jge value_ptr f s = with_arg value_ptr s (p_jge host)
  handler cmpdbl value_ptr f s = p_cmpdbl unit s
  handler gca value_ptr f s = p_gca s
  handler cli value_ptr f s = some (p_cli s)
  handler sti value_ptr f s = some (p_sti s)
  handler hlt value_ptr f s = some (p_hlt s)
  handler call value_ptr f s = with_arg value_ptr s (p_call host)
  handler lcall value_ptr f s = with_arg value_ptr s (p_lcall host)
  handler ret value_ptr f s = some (p_ret s)
  handler svcall value_ptr f s = some (p_svcall s)
  handler rscall value_ptr f s = some (p_rscall s)
  handler nopen value_ptr f s = with_arg value_ptr s (network nopen)
  handler nclose value_ptr f s = with_arg value_ptr s (network nclose)
  handler nget value_ptr f s = with_arg value_ptr s (network nget)
  handler nsend value_ptr f s = with_arg value_ptr s (network nsend)
  handler nhrecv value_ptr f s = with_arg value_ptr s (network nhrecv)
  handler ncrtep value_ptr f s = with_arg value_ptr s (network ncrtep)
  handler nselep value_ptr f s = with_arg value_ptr s (network nselep)
  handler rfread value_ptr f s =
      with_arg_if (not (ltb 2 s.regs.exec_level)) value_ptr s (λ arg. (ex_rfread arg f s))
  handler rflen value_ptr f s =
      with_arg_if (not (ltb 2 s.regs.exec_level)) value_ptr s (λ arg. (ex_rflen arg f s))

  -- `rfwrite`, which changes the files. The handlers of the files look at the execution level first.
  unfoldable pub execute_rfwrite : Option ArgTuple → Outside → Machine → Option (Machine × Outside)
  unfolding ex_rfwrite
  execute_rfwrite value_ptr o s =
      with_arg_if (not (ltb 2 s.regs.exec_level)) value_ptr (s, o)
        (λ arg. do (s', f) ← ex_rfwrite arg o.files s; some (s', record o { files = f }))

  -- `int`, which `execute` hands to `_intcall`. With the interrupts off the argument is not read.
  unfoldable pub execute_int : Option ArgTuple → Outside → Machine → Option (Machine × Outside)
  unfolding int_call
  execute_int value_ptr o s =
      with_arg_if s.regs.interrupts_flag value_ptr (s, o)
        (λ arg. do
          (s', c) ← int_call unit float_text host arg o.console s
          some (s', record o { console = c }))

  -- `execute`.
  unfoldable pub call_handler :
      VirtualAction → Option ArgTuple → Outside → Machine → Option (Machine × Outside)
  unfolding handler execute_int execute_rfwrite
  call_handler int value_ptr o s = execute_int value_ptr o s
  call_handler rfwrite value_ptr o s = execute_rfwrite value_ptr o s
  call_handler action value_ptr o s = within o (handler action value_ptr o.files s)

  -- An action of a process.
  unfoldable pub execute_action : Action → Outside → Machine → Option (Machine × Outside)
  unfolding call_handler
  execute_action a o s = call_handler a.act a.value_ptr o s
