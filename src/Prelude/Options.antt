-- ===== src/Prelude/Options.antt =====
-- Computations that may meet undefined behaviour: `none` is such a computation.
use mathlib.Core.Path.{◌≡◌, refl}
use mathlib.Core.Bool.{Bool, true, false}
use mathlib.Core.Logic.{◌⊎◌, inl, inr}
use mathlib.Core.Option.{Option, none, some}
use virtual_processing_unit.Prelude.Tests.{if◌then◌else◌}

infixl 5 ◌>>=◌
abbrev pub ◌>>=◌ {ℓ κ} : {A : Type ℓ} {B : Type κ} → Option A → (A → Option B) → Option B
none >>= f = none
some a >>= f = f a

-- A chain that gives a value has given one at its first step.
pub bind-some {ℓ κ} :
    {A : Type ℓ} {B : Type κ} (x : Option A) (f : A → Option B) (b : B)
    → (x >>= f) ≡ some b
    → (a : A) × (x ≡ some a) × (f a ≡ some b)
bind-some none f b h = cc
bind-some (some a) f b h = (a, refl, h)

pub some-injective {ℓ} : {A : Type ℓ} (a b : A) → some a ≡ some b → a ≡ b
some-injective a b h = cc

-- The branch that gave a result.
pub if-branch {ℓ} :
    {A : Type ℓ} (test : Bool) (a b c : A)
    → (if test then a else b) ≡ c
    → ((test ≡ true) × (a ≡ c)) ⊎ ((test ≡ false) × (b ≡ c))
if-branch true a b c h = inl (refl, h)
if-branch false a b c h = inr (refl, h)

-- A value behind a test.
pub if-some {ℓ} :
    {A : Type ℓ} (test : Bool) (a b : A)
    → (if test then some a else none) ≡ some b
    → (test ≡ true) × (a ≡ b)
if-some true a b h = (refl, some-injective a b h)
if-some false a b h = cc
