-- ===== src/Svasm/Preprocessor/Labels.antt =====
-- SVASM/Assembler/compiler.cpp, `preprocTokenized`: the addresses of labels.
use virtual_processing_unit.Prelude.{
  ℕ, ◌+◌, ◌%◌, ◌^◌, ◌<◌, ◌≡◌, refl, ap, ◌∙◌, sym, subst, arith, Bool, false, ◌&&◌, Option, none,
  some, List, [], ◌∷◌, ◌++◌, append_assoc, append-nil, map, length, All, Bool-cases, inl, inr,
}
use virtual_processing_unit.Text.{Text, codes, text_eq, text_eq_refl, lookup, stoull}
use virtual_processing_unit.Svasm.{
  label, from_option, exception, safety_directive, memory_directive, ◌is◌, Token, Svas, ok, exits,
  undefined, bind-ok, ok-injective, SvasmAction,
}
use virtual_processing_unit.Svasm.Tokenizer.{token, Tokenized, tokenized}
use virtual_processing_unit.Svasm.Preprocessor.{
  Preproc, start_preproc, one_of, preproc_instruction, append_actions, request_memory,
  preproc_directive, preproc_arguments, preproc_inst, preproc_all, label_address, or_zero,
  label_value, resolve, preproc_tokenized,
}

abbrev pub defines : Text → Text → List Token → Bool
defines name inst [] = false
defines name inst (arg ∷ rest) = text_eq inst (codes "[labeldef]") && text_eq arg.element name

-- Not a definition of this label.
abbrev pub IsOther : Text → Tokenized → Type 0
IsOther name t = defines name t.instruction t.arguments ≡ false

-- What an instruction leaves: the earlier actions, and the address of the label.
record Keeps (name : Text) (s s' : Preproc) : Type 0 where
  added : List SvasmAction
  actions : s'.out_actions ≡ s.out_actions ++ added
  address : lookup s'.preproc_labels name ≡ lookup s.preproc_labels name

Keeps-same :
    (name : Text) (s r s' : Preproc)
    → ◌≡◌ {A = Svas Preproc} (ok r) (ok s')
    → r.out_actions ≡ s.out_actions
    → lookup r.preproc_labels name ≡ lookup s.preproc_labels name
    → Keeps name s s'
Keeps-same name s r s' h acts labels =
    subst (Keeps name s) (ok-injective r s' h)
      (record { added = []; actions = acts ∙ sym (append-nil s.out_actions); address = labels })

Keeps-append :
    (name inst : Text) (args : List Token) (s s' : Preproc)
    → append_actions s (preproc_instruction inst s.unsafe_flag args) ≡ ok s'
    → Keeps name s s'
Keeps-append name inst args s s' h =
    let (actions, one, e) = bind-ok (preproc_instruction inst s.unsafe_flag args) _ s' h in
    subst (Keeps name s) (ok-injective _ s' e)
      (record { added = actions; actions = refl; address = refl })

Keeps-request :
    (name : Text) (size : Option ℕ) (element : Text) (s s' : Preproc)
    → request_memory size element s ≡ ok s'
    → Keeps name s s'
unfolding request_memory
Keeps-request name (some size) element s s' h = Keeps-same name s s s' h refl refl
Keeps-request name none element s s' h =
    let (size, one, e) = bind-ok (from_option exception (stoull element)) _ s' h in
    Keeps-same name s _ s' e refl refl

lookup-cons_ne :
    (name other : Text) (address : ℕ) (labels : List (Text × ℕ))
    → text_eq other name ≡ false
    → lookup ((other, address) ∷ labels) name ≡ lookup labels name
unfolding lookup
lookup-cons_ne name other address labels h = rw h

arguments-Keeps :
    (name inst : Text) (args : List Token) (s s' : Preproc)
    → defines name inst args ≡ false
    → preproc_arguments inst args s ≡ ok s'
    → Keeps name s s'
unfolding preproc_arguments preproc_directive
arguments-Keeps name inst [] s s' other h =
    elim (Bool-cases (
      one_of (codes "[labeldef]" ∷ codes "[safety_control]" ∷ codes "[memory_control]" ∷ [])
        inst)) [
          | inl bad ↦ let no_ok : exits undefined ≡ ok s' = rw bad at h in cc
          | inr a ↦ Keeps-append name inst [] s s' (rw a at h)
        ]
arguments-Keeps name inst (arg ∷ rest) s s' other h =
    elim (Bool-cases (text_eq inst (codes "[labeldef]"))) [
      | inl def ↦ Keeps-same name s _ s' (rw def at h) refl (
          lookup-cons_ne name arg.element (label_address s.out_actions) s.preproc_labels
            (rw def at other))
      | inr a ↦
          elim (Bool-cases
            (text_eq inst (codes "[safety_control]") && arg.type is safety_directive)) [
              | inl safety ↦ Keeps-same name s _ s' (rw (a, safety) at h) refl refl
              | inr b ↦
                  elim (Bool-cases
                    (text_eq inst (codes "[memory_control]") && arg.type is memory_directive)) [
                      | inl memory ↦
                          Keeps-request name s.new_mem_size arg.element s s'
                            (rw (a, b, memory) at h)
                      | inr c ↦ Keeps-append name inst (arg ∷ rest) s s' (rw (a, b, c) at h)
                    ]
            ]
    ]

preproc_all-Keeps :
    (name : Text) (tokens : List Tokenized) (s s' : Preproc)
    → All (IsOther name) tokens
    → preproc_all tokens s ≡ ok s'
    → Keeps name s s'
unfolding preproc_all preproc_inst
preproc_all-Keeps name [] s s' others h = Keeps-same name s s s' h refl refl
preproc_all-Keeps name (t ∷ tokens) s s' others h =
    let (s₁, one, more) = bind-ok (preproc_arguments t.instruction t.arguments s) _ s' h in
    let first = arguments-Keeps name t.instruction t.arguments s s₁ others.0 one in
    let rest = preproc_all-Keeps name tokens s₁ s' others.1 more in
    record {
      added = first.added ++ rest.added;
      actions =
          rest.actions
          ∙ ap (λ l. l ++ rest.added) first.actions
          ∙ append_assoc s.out_actions first.added rest.added;
      address = rest.address ∙ first.address;
    }

preproc_all-append :
    (xs ys : List Tokenized) (s s₁ : Preproc)
    → preproc_all xs s ≡ ok s₁
    → preproc_all (xs ++ ys) s ≡ preproc_all ys s₁
unfolding preproc_all
preproc_all-append [] ys s s₁ h = ap (preproc_all ys) (ok-injective s s₁ h)
preproc_all-append (t ∷ xs) ys s s₁ h =
    let (s₂, one, more) = bind-ok (preproc_inst t s) _ s₁ h in
    rw one (preproc_all-append xs ys s₂ s₁ more)

abbrev pub labeldef : Text → Tokenized
labeldef name = tokenized (codes "[labeldef]") (token name label ∷ [])

abbrev pub with_label : Text → Preproc → Preproc
with_label name s = record s {
  preproc_labels = (name, label_address s.out_actions) ∷ s.preproc_labels;
}

preproc_all-labeldef :
    (name : Text) (after : List Tokenized) (s : Preproc)
    → preproc_all (labeldef name ∷ after) s ≡ preproc_all after (with_label name s)
unfolding preproc_all preproc_inst preproc_arguments preproc_directive text_eq
preproc_all-labeldef name after s = refl

lookup-cons_self :
    (name : Text) (address : ℕ) (labels : List (Text × ℕ))
    → lookup ((name, address) ∷ labels) name ≡ some address
unfolding lookup
lookup-cons_self name address labels = rw (text_eq_refl name)

-- In a program that the preprocessor accepts, the value of a label belongs to its last definition:
-- the number after it, with the wrap-around of 64 bits, is the number of actions from before the
-- definition, and so the place of the first action from behind it. The actions of the whole program
-- are those from before the definition and others, with the labels replaced.
pub preproc_tokenized-label :
    (name : Text) (before after : List Tokenized) (s s' : Preproc)
    → All (IsOther name) after
    → preproc_all before start_preproc ≡ ok s
    → preproc_all after (with_label name s) ≡ ok s'
    → length s.out_actions < 2 ^ 64
    → (added : List SvasmAction) × (preproc_tokenized (before ++ labeldef name ∷ after)
        ≡ ok (map (resolve s'.preproc_labels) (s.out_actions ++ added), s'.new_mem_size))
      × ((label_value s'.preproc_labels name + 1) % 2 ^ 64 ≡ length s.out_actions)
unfolding preproc_tokenized
preproc_tokenized-label name before after s s' others first rest small =
    let kept = preproc_all-Keeps name after (with_label name s) s' others rest in
    let all : preproc_all (before ++ labeldef name ∷ after) start_preproc ≡ ok s' =
      preproc_all-append before (labeldef name ∷ after) start_preproc s first
      ∙ preproc_all-labeldef name after s
      ∙ rest in
    let value : label_value s'.preproc_labels name ≡ label_address s.out_actions =
      ap or_zero kept.address
      ∙ ap or_zero (lookup-cons_self name (label_address s.out_actions) s.preproc_labels) in
    (
      kept.added,
      rw all (ap (λ l. ok (map (resolve s'.preproc_labels) l, s'.new_mem_size)) kept.actions),
      rw value (omega arith),
    )
