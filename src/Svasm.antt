-- ===== src/Svasm.antt =====
-- SVASM/Assembler: the tokens, the errors and the actions that its stages hand on, from
-- compiler.h, parser.h and compiler.cpp.
pub mod Compile
pub mod Meaning
pub mod Parser
pub mod Tokenizer
pub mod Preprocessor
use virtual_processing_unit.Prelude.{
  ℕ, ◌-◌, ◌≡◌, refl, Bool, true, false, Option, none, some, List, [], ◌∷◌, ◌==◌, if◌then◌else◌,
  take, drop, length,
}
use virtual_processing_unit.Registers.{cr_id}
use virtual_processing_unit.VirtualActions.{VirtualAction}
use virtual_processing_unit.Text.{Text, codes}

-- `tokenTypes`.
pub data TokenType : Type 0 where
  error_type unsigned_n signed_n hex_n double_n str reg fp_reg : TokenType
  stored_addr_reg stored_addr_raw label safety_directive memory_directive : TokenType
  type_quantifier : TokenType

-- The enumeration's value, for comparisons.
unfoldable pub type_code : TokenType → ℕ
type_code error_type = 0
type_code unsigned_n = 1
type_code signed_n = 2
type_code hex_n = 3
type_code double_n = 4
type_code str = 5
type_code reg = 6
type_code fp_reg = 7
type_code stored_addr_reg = 8
type_code stored_addr_raw = 9
type_code label = 10
type_code safety_directive = 11
type_code memory_directive = 12
type_code type_quantifier = 13

infix 50 ◌is◌
unfoldable pub ◌is◌ : TokenType → TokenType → Bool
unfolding type_code
s is t = type_code s == type_code t

-- `token`.
pub record Token : Type 0 where
  pub element : Text
  pub type : TokenType

-- The exit codes of parser.h, an exception of the standard library, and undefined behaviour.
pub data SvasError : Type 0 where
  file_error empty_file inst_error extra_comma : SvasError
  unknown_type wrong_nargs argv_error exception undefined : SvasError

-- What a stage returns, unless `assert_err` ends the program.
pub data Svas {ℓ} (A : Type ℓ) : Type ℓ where
  ok : A → Svas A
  exits : SvasError → Svas A

infixl 5 ◌>>=◌
abbrev pub ◌>>=◌ {ℓ κ} : {A : Type ℓ} {B : Type κ} → Svas A → (A → Svas B) → Svas B
ok a >>= f = f a
exits e >>= f = exits e

abbrev pub from_option {ℓ} : {A : Type ℓ} → SvasError → Option A → Svas A
from_option e none = exits e
from_option e (some a) = ok a

-- A chain that comes to an end has come to an end at its first step.
pub bind-ok {ℓ κ} :
    {A : Type ℓ} {B : Type κ} (x : Svas A) (f : A → Svas B) (b : B)
    → (x >>= f) ≡ ok b
    → (a : A) × (x ≡ ok a) × (f a ≡ ok b)
bind-ok (ok a) f b h = (a, refl, h)
bind-ok (exits e) f b h = cc

pub ok-injective {ℓ} : {A : Type ℓ} (a b : A) → ok a ≡ ok b → a ≡ b
ok-injective a b h = cc

-- An action before it is compiled, with its `svasm_args`.
pub record SvasmAction : Type 0 where
  pub action : VirtualAction
  pub var_type : TokenType
  pub var_raw : Text
  pub opt_arg : ℕ

-- `strreg_to_reg`, with the values of `comn_registers`.
abbrev pub strreg_to_reg : List (Text × ℕ)
strreg_to_reg =
    (codes "ax", 0x09)
    ∷ (codes "bx", 0x0a)
    ∷ (codes "cx", 0x0b)
    ∷ (codes "dx", 0x0c)
    ∷ (codes "eax", 0x0d)
    ∷ (codes "ebx", 0x0e)
    ∷ (codes "ecx", 0x0f)
    ∷ (codes "edx", 0x10)
    ∷ (codes "rax", 0x11)
    ∷ (codes "rbx", 0x12)
    ∷ (codes "rcx", 0x13)
    ∷ (codes "rdx", 0x14)
    ∷ (codes "rbp", 0x15)
    ∷ (codes "rsp", 0x16)
    ∷ (codes "rdi", 0x17)
    ∷ (codes "rsi", 0x18)
    ∷ (codes "cr", cr_id)
    ∷ (codes "fpr0", 0x1a)
    ∷ (codes "fpr1", 0x1b)
    ∷ (codes "fpr2", 0x1c)
    ∷ (codes "fpr3", 0x1d)
    ∷ (codes "efpr0", 0x1e)
    ∷ (codes "efpr1", 0x1f)
    ∷ (codes "efpr2", 0x20)
    ∷ (codes "efpr3", 0x21)
    ∷ (codes "rfpr0", 0x22)
    ∷ (codes "rfpr1", 0x23)
    ∷ (codes "rfpr2", 0x24)
    ∷ (codes "rfpr3", 0x25)
    ∷ []
