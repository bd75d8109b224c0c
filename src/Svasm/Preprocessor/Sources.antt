-- ===== src/Svasm/Preprocessor/Sources.antt =====
-- SVASM/Assembler/tokenizer.cpp, `tokenizeCodeline` and `tokenizer`: what the preprocessor may rely on.
use virtual_processing_unit.Prelude.{
  ℕ, ◌≡◌, refl, ◌∙◌, sym, subst, Bool, true, false, ◌&&◌, ◌||◌, Option, none, some, List, [], ◌∷◌,
  ◌++◌, ◌==◌, All, Bool-cases, inl, inr, ◌⊎◌,
}
use virtual_processing_unit.Text.{Text, codes, text_eq, eq_of_text_eq, to_string}
use virtual_processing_unit.Svasm.{
  TokenType, reg, fp_reg, label, safety_directive, memory_directive, ◌is◌, Token, Svas, ok, bind-ok,
  ok-injective,
}
use virtual_processing_unit.Svasm.Parser.{Codeline, is_empty, back}
use virtual_processing_unit.Svasm.Tokenizer.{
  token, Tokenized, tokenized, tokenize_arguments, resmem_tokens, resmem_size, tokenize_codeline,
  tokenizer, tokenize_by_last,
}
use virtual_processing_unit.Svasm.Tokenizer.Types.{IsToken, tokenize_arguments-IsToken}
use virtual_processing_unit.Svasm.Preprocessor.Emits.{IsKnown}
use virtual_processing_unit.Svasm.Preprocessor.Emits.Instructions.{All-IsKnown}

-- A request for memory, as `preprocInst` recognises one.
abbrev pub is_request : Text → List Token → Bool
is_request inst [] = false
is_request inst (arg ∷ rest) =
    text_eq inst (codes "[memory_control]") && arg.type is memory_directive

-- What the preprocessor may rely on.
abbrev pub IsSource : Tokenized → Type 0
IsSource t = All IsKnown t.arguments × (is_request t.instruction t.arguments ≡ false)

no_memory_directive :
    (labels : List Text) (type : TokenType) (s : Text)
    → IsToken labels (token s type)
    → (type is memory_directive) ≡ false
unfolding ◌is◌
no_memory_directive labels memory_directive s h = absurd h
no_memory_directive labels type s h = refl

and-false : (a b : Bool) → b ≡ false → (a && b) ≡ false
and-false true b h = h
and-false false b h = refl

typed_is_request :
    (labels : List Text) (inst : Text) (args : List Token)
    → All (IsToken labels) args
    → is_request inst args ≡ false
typed_is_request labels inst [] h = refl
typed_is_request labels inst (arg ∷ args) h =
    and-false _ _ (no_memory_directive labels arg.type arg.element h.0)

to_IsSource : (s t : Tokenized) → ◌≡◌ {A = Svas Tokenized} (ok s) (ok t) → IsSource s → IsSource t
to_IsSource s t h = subst IsSource (ok-injective s t h)

-- The branch for `#resmem` gives no token or one, and then under another name than the request.
resmem_tokens-cases :
    (inst : Text) (arguments : List Text) (memory : List Token)
    → resmem_tokens inst arguments ≡ ok memory
    → (memory ≡ [])
      ⊎ ((element : Text) × (memory ≡ token element memory_directive ∷ [])
          × (text_eq inst (codes "#resmem") ≡ true))
unfolding resmem_tokens
resmem_tokens-cases inst [] memory h = inl (sym (ok-injective [] memory h))
resmem_tokens-cases inst (a ∷ b ∷ args) memory h = inl (sym (ok-injective [] memory h))
resmem_tokens-cases inst (arg ∷ []) memory h = elim (Bool-cases (text_eq inst (codes "#resmem"))) [
  | inl same ↦
      let (size, sized, e) = bind-ok (resmem_size arg) _ memory (rw same at h) in
      inr (to_string size, sym (ok-injective _ memory e), same)
  | inr other ↦ inl (sym (ok-injective [] memory (rw other at h)))
]

directive_IsKnown :
    (element : Text) (type : TokenType)
    → (type is reg || type is fp_reg) ≡ false
    → IsKnown (token element type)
directive_IsKnown element type h k = let bad : false ≡ true = sym h ∙ k in cc

resmem_is_request :
    (inst element : Text) (args : List Token)
    → text_eq inst (codes "#resmem") ≡ true
    → is_request inst (token element memory_directive ∷ args) ≡ false
unfolding text_eq
resmem_is_request inst element args same =
    subst (λ name. is_request name (token element memory_directive ∷ args) ≡ false)
      (sym (eq_of_text_eq inst (codes "#resmem") same)) refl

-- What the tokenizer gives for an instruction.
tokenized-IsSource :
    (labels : List Text) (inst : Text) (memory args : List Token)
    → (memory ≡ [])
      ⊎ ((element : Text) × (memory ≡ token element memory_directive ∷ [])
          × (text_eq inst (codes "#resmem") ≡ true))
    → All (IsToken labels) args
    → IsSource (tokenized inst (memory ++ args))
unfolding ◌is◌
tokenized-IsSource labels inst memory args (inl e) typed =
    rw e (All-IsKnown labels args typed, typed_is_request labels inst args typed)
tokenized-IsSource labels inst memory args (inr (element, e, same)) typed = rw e (
  (directive_IsKnown element memory_directive refl, All-IsKnown labels args typed),
  resmem_is_request inst element args same,
)

by_last-IsSource :
    (labels : List Text) (parsed : Codeline) (t : Tokenized) (last : Option ℕ)
    → tokenize_by_last labels parsed last ≡ ok t
    → IsSource t
unfolding tokenize_by_last ◌is◌
by_last-IsSource labels parsed t none h = cc
by_last-IsSource labels parsed t (some c) h =
    elim (Bool-cases (c == b':' && is_empty parsed.arguments)) [
      | inl def ↦ to_IsSource _ t (rw def at h) ((directive_IsKnown _ label refl, tt), refl)
      | inr a ↦
          elim (Bool-cases (
            (text_eq parsed.instruction (codes "#safe")
              || text_eq parsed.instruction (codes "#unsafe"))
            && is_empty parsed.arguments)) [
              | inl safety ↦
                  to_IsSource _ t (rw (a, safety) at h)
                    ((directive_IsKnown _ safety_directive refl, tt), refl)
              | inr b ↦
                  let (memory, m, h') =
                    bind-ok (resmem_tokens parsed.instruction parsed.arguments) _ t
                      (rw (a, b) at h) in
                  let (args, n, h'') =
                    bind-ok (tokenize_arguments labels parsed.arguments) _ t h' in
                  to_IsSource _ t h'' (
                    tokenized-IsSource labels parsed.instruction memory args
                      (resmem_tokens-cases parsed.instruction parsed.arguments memory m)
                      (tokenize_arguments-IsToken labels parsed.arguments args n))
            ]
    ]

pub tokenizer-IsSource :
    (labels : List Text) (parsed : List Codeline) (tokens : List Tokenized)
    → tokenizer labels parsed ≡ ok tokens
    → All IsSource tokens
unfolding tokenizer tokenize_codeline
tokenizer-IsSource labels [] tokens h = subst (All IsSource) (ok-injective [] tokens h) tt
tokenizer-IsSource labels (p ∷ parsed) tokens h =
    let (t, one, h') = bind-ok (tokenize_codeline labels p) _ tokens h in
    let (others, more, e) = bind-ok (tokenizer labels parsed) _ tokens h' in
    subst (All IsSource) (ok-injective (t ∷ others) tokens e) (
      by_last-IsSource labels p t (back p.instruction) one,
      tokenizer-IsSource labels parsed others more,
    )
