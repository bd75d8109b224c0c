-- ===== src/Svasm/Preprocessor.antt =====
-- SVASM/Assembler/compiler.cpp, `preprocInst` and `preprocTokenized`: from instructions with tokens
-- to actions without labels.
pub mod Actions
pub mod Maths
pub mod Stack
pub mod Heap
pub mod Calls
pub mod Comparisons
pub mod Emits
pub mod Sources
pub mod Program
pub mod Labels
pub mod Rejected
use virtual_processing_unit.Prelude.{
  ℕ, ◌+◌, ◌-◌, ◌%◌, ◌^◌, Bool, true, false, not, ◌&&◌, ◌||◌, Option, none, some, List, [], ◌∷◌,
  ◌++◌, if◌then◌else◌, length, map,
}
use virtual_processing_unit.Text.{Text, codes, text_eq, lookup, to_string, stoull}
use virtual_processing_unit.Svasm.{
  unsigned_n, label, safety_directive, memory_directive, ◌is◌, Token, Svas, ok, exits, ◌>>=◌,
  from_option, exception, undefined, SvasmAction,
}
use virtual_processing_unit.Svasm.Tokenizer.{Tokenized}
use virtual_processing_unit.Svasm.Preprocessor.Actions.{
  push_action, preproc_int, preproc_mov, preproc_str, preproc_inc, preproc_dec,
}
use virtual_processing_unit.Svasm.Preprocessor.Maths.{
  preproc_math, preproc_lgcl_math, preproc_adv_math,
}
use virtual_processing_unit.Svasm.Preprocessor.Stack.{preproc_stack}
use virtual_processing_unit.Svasm.Preprocessor.Heap.{preproc_heap}
use virtual_processing_unit.Svasm.Preprocessor.Calls.{
  preproc_calls, preproc_cmp_calls, preproc_network,
}
use virtual_processing_unit.Svasm.Preprocessor.Comparisons.{preproc_comps}

-- `unsafe_flag`, `memory_flags`, `preprocLabels` and `out_actions`. The requested size is there if
-- `mem_res_req` is set; of two entries for a label the first one counts.
pub record Preproc : Type 0 where
  pub unsafe_flag : Bool
  pub new_mem_size : Option ℕ
  pub preproc_labels : List (Text × ℕ)
  pub out_actions : List SvasmAction

abbrev pub start_preproc : Preproc
start_preproc = record {
  unsafe_flag = false;
  new_mem_size = none;
  preproc_labels = [];
  out_actions = [];
}

abbrev pub one_of : List Text → Text → Bool
one_of [] inst = false
one_of (name ∷ rest) inst = text_eq inst name || one_of rest inst

-- The branches of `preprocInst` from int on: what an instruction appends.
unfoldable pub preproc_instruction : Text → Bool → List Token → Svas (List SvasmAction)
unfolding text_eq
preproc_instruction inst unsafe_flag arguments =
    if text_eq inst (codes "int")
    then preproc_int arguments
    else if text_eq inst (codes "mov")
    then preproc_mov arguments
    else if text_eq inst (codes "inc")
    then preproc_inc arguments
    else if text_eq inst (codes "dec")
    then preproc_dec arguments
    else if one_of (codes "mul" ∷ codes "div" ∷ codes "add" ∷ codes "sub" ∷ []) inst
    then preproc_math inst unsafe_flag arguments
    else if one_of
        (codes "not" ∷ codes "and" ∷ codes "xor" ∷ codes "or" ∷ codes "shr" ∷ codes "shl" ∷ []) inst
    then preproc_lgcl_math inst unsafe_flag arguments
    else if one_of (codes "log" ∷ codes "log2" ∷ codes "log10" ∷ codes "pow" ∷ []) inst
    then preproc_adv_math inst unsafe_flag arguments
    else if one_of (codes "push" ∷ codes "pop" ∷ []) inst
    then preproc_stack (text_eq inst (codes "push")) unsafe_flag arguments
    else if one_of (codes "mload" ∷ codes "sdzs" ∷ []) inst
    then preproc_heap inst unsafe_flag arguments
    else if text_eq inst (codes "str")
    then preproc_str arguments
    else if one_of (codes "call" ∷ codes "jmp" ∷ codes "ret" ∷ []) inst
    then preproc_calls inst arguments
    else if one_of
        (codes "je" ∷ codes "jge" ∷ codes "jl" ∷ codes "jle" ∷ codes "jg" ∷ codes "jge" ∷ []) inst
    then preproc_cmp_calls inst arguments
    else if text_eq inst (codes "cmp")
    then preproc_comps unsafe_flag arguments
    else if one_of
        (codes "nopn"
          ∷ codes "ncls"
          ∷ codes "nsnd"
          ∷ codes "nget"
          ∷ codes "nrcv"
          ∷ codes "ncep"
          ∷ codes "nsep"
          ∷ [])
        inst
    then preproc_network inst unsafe_flag arguments
    else ok []

abbrev pub append_actions : Preproc → Svas (List SvasmAction) → Svas Preproc
append_actions s added = do
  actions ← added
  ok (record s { out_actions = s.out_actions ++ actions })

-- `out_actions.size() - 1`, in `size_t`.
abbrev pub label_address : List SvasmAction → ℕ
label_address out_actions = (length out_actions + 2 ^ 64 - 1) % 2 ^ 64

-- The request for memory; only the first one counts.
unfoldable pub request_memory : Option ℕ → Text → Preproc → Svas Preproc
request_memory (some size) element s = ok s
request_memory none element s = do
  size ← from_option exception (stoull element)
  ok (record s { new_mem_size = some size })

-- The first branches of `preprocInst`, on an instruction with its first argument.
unfoldable pub preproc_directive : Text → Token → List Token → Preproc → Svas Preproc
unfolding text_eq ◌is◌ request_memory
preproc_directive inst arg rest s =
    if text_eq inst (codes "[labeldef]")
    then ok (record s {
      preproc_labels = (arg.element, label_address s.out_actions) ∷ s.preproc_labels;
    })
    else if text_eq inst (codes "[safety_control]") && arg.type is safety_directive
    then ok (record s { unsafe_flag = not (text_eq arg.element (codes "safe")) })
    else if text_eq inst (codes "[memory_control]") && arg.type is memory_directive
    then request_memory s.new_mem_size arg.element s
    else append_actions s (preproc_instruction inst s.unsafe_flag (arg ∷ rest))

-- On its arguments: without one, the first branches read where there is none.
unfoldable pub preproc_arguments : Text → List Token → Preproc → Svas Preproc
unfolding text_eq preproc_directive
preproc_arguments inst (arg ∷ rest) s = preproc_directive inst arg rest s
preproc_arguments inst [] s =
    if one_of (codes "[labeldef]" ∷ codes "[safety_control]" ∷ codes "[memory_control]" ∷ []) inst
    then exits undefined
    else append_actions s (preproc_instruction inst s.unsafe_flag [])

-- `preprocInst`.
unfoldable pub preproc_inst : Tokenized → Preproc → Svas Preproc
unfolding preproc_arguments
preproc_inst tokens s = preproc_arguments tokens.instruction tokens.arguments s

-- The first loop of `preprocTokenized`.
unfoldable pub preproc_all : List Tokenized → Preproc → Svas Preproc
preproc_all [] s = ok s
preproc_all (tokens ∷ rest) s = do s' ← preproc_inst tokens s; preproc_all rest s'

-- The number of a label; the map gives 0 for one that it does not know.
abbrev pub or_zero : Option ℕ → ℕ
or_zero none = 0
or_zero (some value) = value

abbrev pub label_value : List (Text × ℕ) → Text → ℕ
label_value labels name = or_zero (lookup labels name)

-- The second loop of `preprocTokenized`, on one action.
unfoldable pub resolve : List (Text × ℕ) → SvasmAction → SvasmAction
unfolding ◌is◌ lookup to_string
resolve labels a =
    if a.var_type is label
    then push_action a.action unsigned_n (to_string (label_value labels a.var_raw)) a.opt_arg
    else a

-- `preprocTokenized`, with the requested amount of memory.
unfoldable pub preproc_tokenized : List Tokenized → Svas (List SvasmAction × Option ℕ)
unfolding preproc_all resolve
preproc_tokenized tokens = do
  s ← preproc_all tokens start_preproc
  ok (map (resolve s.preproc_labels) s.out_actions, s.new_mem_size)
