-- ===== src/Svasm/Preprocessor/Program.antt =====
-- SVASM/Assembler/compiler.cpp, `preprocTokenized`, on what the tokenizer gives: the registers of its
-- constants, and the memory that a program asks for.
use virtual_processing_unit.Prelude.{
  ℕ, ◌≡◌, refl, ap, ◌∙◌, sym, subst, Bool, true, false, ◌&&◌, ◌||◌, ◌==◌, Option, none, List, [],
  ◌∷◌, ◌⊎◌, inl, inr, map, All, Bool-cases, and-true, or-true, ==_iff,
}
use virtual_processing_unit.VirtualActions.Opcodes.{
  ArgKind, constant_argument, no_argument, word_argument, register_argument, arg_kind,
}
use virtual_processing_unit.Registers.{is_num_reg, is_fp_reg, cr_id}
use virtual_processing_unit.Text.{Text, codes, text_eq}
use virtual_processing_unit.Svasm.{
  label, safety_directive, ◌is◌, Token, Svas, ok, exits, undefined, bind-ok, ok-injective,
  SvasmAction,
}
use virtual_processing_unit.Svasm.Parser.{Codeline}
use virtual_processing_unit.Svasm.Tokenizer.{Tokenized, tokenizer}
use virtual_processing_unit.Svasm.Preprocessor.{
  Preproc, start_preproc, one_of, preproc_instruction, append_actions, preproc_directive,
  preproc_arguments, preproc_inst, preproc_all, resolve, preproc_tokenized,
}
use virtual_processing_unit.Svasm.Preprocessor.Emits.{
  is_target_id, target_of_kind, all_have_target, all_have_target-append, IsPartOf, empty, keep,
  skip, Emits, emits, refuses, IsKnown,
}
use virtual_processing_unit.Svasm.Preprocessor.Emits.Instructions.{preproc_instruction-Emits}
use virtual_processing_unit.Svasm.Preprocessor.Sources.{is_request, IsSource, tokenizer-IsSource}
use virtual_processing_unit.Loader.RoundTrip.{HasTarget}

IsPartOf-target :
    {us ss : List SvasmAction}
    → IsPartOf us ss
    → all_have_target ss ≡ true
    → all_have_target us ≡ true
IsPartOf-target empty h = h
IsPartOf-target (keep a us ss p) h =
    let (first, others) =
      and-true (target_of_kind (arg_kind a.action) a.opt_arg) (all_have_target ss) h in
    rw first (IsPartOf-target p others)
IsPartOf-target (skip a us ss p) h =
    IsPartOf-target p
      (and-true (target_of_kind (arg_kind a.action) a.opt_arg) (all_have_target ss) h).1

Emits-target :
    {x y : Svas (List SvasmAction)} (actions : List SvasmAction)
    → Emits x y
    → (x ≡ ok actions) ⊎ (y ≡ ok actions)
    → all_have_target actions ≡ true
Emits-target actions (emits us ss p t) (inl h) =
    subst (λ l. all_have_target l ≡ true) (ok-injective us actions h) (IsPartOf-target p t)
Emits-target actions (emits us ss p t) (inr h) =
    subst (λ l. all_have_target l ≡ true) (ok-injective ss actions h) t
Emits-target actions (refuses e u) (inl h) = cc
Emits-target actions (refuses e u) (inr h) = cc

instruction-target :
    (inst : Text) (unsafe_flag : Bool) (args : List Token) (actions : List SvasmAction)
    → All IsKnown args
    → preproc_instruction inst unsafe_flag args ≡ ok actions
    → all_have_target actions ≡ true
instruction-target inst true args actions known h =
    Emits-target actions (preproc_instruction-Emits inst args known) (inl h)
instruction-target inst false args actions known h =
    Emits-target actions (preproc_instruction-Emits inst args known) (inr h)

-- The constants are for registers, and no memory is asked for.
record IsFine (s : Preproc) : Type 0 where
  targets : all_have_target s.out_actions ≡ true
  no_request : s.new_mem_size ≡ none

append_actions-IsFine :
    (inst : Text) (args : List Token) (s s' : Preproc)
    → All IsKnown args
    → append_actions s (preproc_instruction inst s.unsafe_flag args) ≡ ok s'
    → IsFine s
    → IsFine s'
append_actions-IsFine inst args s s' known h fine =
    let (actions, one, e) = bind-ok (preproc_instruction inst s.unsafe_flag args) _ s' h in
    subst IsFine (ok-injective _ s' e) (record {
      targets =
          all_have_target-append s.out_actions actions fine.targets
            (instruction-target inst s.unsafe_flag args actions known one);
      no_request = fine.no_request;
    })

arguments-IsFine :
    (inst : Text) (args : List Token) (s s' : Preproc)
    → All IsKnown args
    → is_request inst args ≡ false
    → preproc_arguments inst args s ≡ ok s'
    → IsFine s
    → IsFine s'
unfolding preproc_arguments preproc_directive
arguments-IsFine inst [] s s' known plain h fine =
    elim (Bool-cases (
      one_of (codes "[labeldef]" ∷ codes "[safety_control]" ∷ codes "[memory_control]" ∷ [])
        inst)) [
          | inl bad ↦ let no_ok : exits undefined ≡ ok s' = rw bad at h in cc
          | inr a ↦ append_actions-IsFine inst [] s s' known (rw a at h) fine
        ]
arguments-IsFine inst (arg ∷ rest) s s' known plain h fine =
    elim (Bool-cases (text_eq inst (codes "[labeldef]"))) [
      | inl def ↦
          subst IsFine (ok-injective _ s' (rw def at h))
            (record { targets = fine.targets; no_request = fine.no_request })
      | inr a ↦
          elim (Bool-cases
            (text_eq inst (codes "[safety_control]") && arg.type is safety_directive)) [
              | inl safety ↦
                  subst IsFine (ok-injective _ s' (rw (a, safety) at h))
                    (record { targets = fine.targets; no_request = fine.no_request })
              | inr b ↦
                  append_actions-IsFine inst (arg ∷ rest) s s' known (rw (a, b, plain) at h) fine
            ]
    ]

preproc_all-IsFine :
    (tokens : List Tokenized) (s s' : Preproc)
    → All IsSource tokens
    → preproc_all tokens s ≡ ok s'
    → IsFine s
    → IsFine s'
unfolding preproc_all preproc_inst
preproc_all-IsFine [] s s' sources h fine = subst IsFine (ok-injective s s' h) fine
preproc_all-IsFine (t ∷ tokens) s s' sources h fine =
    let (s₁, one, more) = bind-ok (preproc_arguments t.instruction t.arguments s) _ s' h in
    preproc_all-IsFine tokens s₁ s' sources.1 more
      (arguments-IsFine t.instruction t.arguments s s₁ sources.0.0 sources.0.1 one fine)

target_HasTarget :
    (kind : ArgKind) (opt_arg : ℕ)
    → target_of_kind kind opt_arg ≡ true
    → kind ≡ constant_argument
    → (is_num_reg opt_arg ≡ true) ⊎ ((is_fp_reg opt_arg ≡ true) ⊎ (opt_arg ≡ cr_id))
unfolding is_target_id
target_HasTarget constant_argument opt_arg h e =
    elim (or-true (is_num_reg opt_arg) (is_fp_reg opt_arg || opt_arg == cr_id) h) [
      | inl number ↦ inl number
      | inr other ↦ elim (or-true (is_fp_reg opt_arg) (opt_arg == cr_id) other) [
        | inl float ↦ inr (inl float)
        | inr character ↦ inr (inr ((==_iff opt_arg cr_id).0 character))
      ]
    ]
target_HasTarget no_argument opt_arg h e = cc
target_HasTarget word_argument opt_arg h e = cc
target_HasTarget register_argument opt_arg h e = cc

resolve-HasTarget :
    (labels : List (Text × ℕ)) (a : SvasmAction)
    → target_of_kind (arg_kind a.action) a.opt_arg ≡ true
    → HasTarget (resolve labels a)
unfolding HasTarget resolve
resolve-HasTarget labels a h = elim (Bool-cases (a.var_type is label)) [
  | inl named ↦ rw named (target_HasTarget (arg_kind a.action) a.opt_arg h)
  | inr other ↦ rw other (target_HasTarget (arg_kind a.action) a.opt_arg h)
]

map-resolve-HasTarget :
    (labels : List (Text × ℕ)) (actions : List SvasmAction)
    → all_have_target actions ≡ true
    → All HasTarget (map (resolve labels) actions)
map-resolve-HasTarget labels [] h = tt
map-resolve-HasTarget labels (a ∷ actions) h =
    let (first, others) =
      and-true (target_of_kind (arg_kind a.action) a.opt_arg) (all_have_target actions) h in
    (resolve-HasTarget labels a first, map-resolve-HasTarget labels actions others)

-- What the tokenizer gives never asks for memory, and each constant is for a register that it can be
-- compiled for.
pub preproc_tokenized-HasTarget :
    (labels : List Text) (parsed : List Codeline) (tokens : List Tokenized)
    (actions : List SvasmAction) (new_mem_size : Option ℕ)
    → tokenizer labels parsed ≡ ok tokens
    → preproc_tokenized tokens ≡ ok (actions, new_mem_size)
    → All HasTarget actions × (new_mem_size ≡ none)
unfolding preproc_tokenized
preproc_tokenized-HasTarget labels parsed tokens actions new_mem_size t h =
    let (s, all, e) = bind-ok (preproc_all tokens start_preproc) _ (actions, new_mem_size) h in
    let fine : IsFine s =
      preproc_all-IsFine tokens start_preproc s (tokenizer-IsSource labels parsed tokens t) all
        (record { targets = refl; no_request = refl }) in
    let same : (map (resolve s.preproc_labels) s.out_actions, s.new_mem_size)
        ≡ (actions, new_mem_size) =
      ok-injective _ _ e in
    (
      subst (All HasTarget) (ap (λ p. p.0) same)
          (map-resolve-HasTarget s.preproc_labels s.out_actions fine.targets),
      sym (ap (λ p. p.1) same) ∙ fine.no_request,
    )
