-- ===== src/ActionsEngine/Terminal.antt =====
-- Actions/interrupts.cpp: what the interrupts do to the terminal.
use virtual_processing_unit.Prelude.{
  ℕ, ◌≡◌, refl, sym, ap, subst, ◌∙◌, Bool, true, false, if◌then◌else◌, Option, none, some, ◌>>=◌,
  List, [], ◌∷◌, ◌++◌, append-nil, append_assoc, some-injective,
}
use virtual_processing_unit.Memory.{Machine}
use virtual_processing_unit.Args.{ArgTuple, Host}
use virtual_processing_unit.Floats.{FloatUnit}
use virtual_processing_unit.Text.{Text}
use virtual_processing_unit.Extended.{FloatText, b_get_input}
use virtual_processing_unit.Interrupts.{Console, silent, get_input, handle_display, pass, int_call}

-- A terminal at a later time: some of the texts that were to be typed have been, and something has
-- been written behind what stood there.
unfoldable pub IsLater : Console → Console → Type 0
IsLater c c' =
    (typed : List Text) × (written : Text) × (c.input ≡ typed ++ c'.input)
    × (c'.output ≡ c.output ++ written)

pub IsLater-refl : (c : Console) → IsLater c c
unfolding IsLater
IsLater-refl c = ([], [], refl, sym (append-nil c.output))

pub IsLater-trans : (c d e : Console) → IsLater c d → IsLater d e → IsLater c e
unfolding IsLater
IsLater-trans c d e (t, w, i, o) (t', w', i', o') = (
  t ++ t',
  w ++ w',
  i ∙ ap (λ x. t ++ x) i' ∙ sym (append_assoc t t' e.input),
  o' ∙ ap (λ x. x ++ w') o ∙ append_assoc c.output w w',
)

same-IsLater : (c c' : Console) → c ≡ c' → IsLater c c'
same-IsLater c c' h = subst (IsLater c) h (IsLater-refl c)

-- A handler on a terminal that leaves one at a later time, if it gives a result.
unfoldable pub Moves : Console → Option (Machine × Console) → Type 0
Moves c m = (s' : Machine) (c' : Console) → m ≡ some (s', c') → IsLater c c'

Moves-none : (c : Console) → Moves c none
unfolding Moves
Moves-none c s' c' h = cc

Moves-some : (c c' : Console) (s : Machine) → IsLater c c' → Moves c (some (s, c'))
unfolding Moves
Moves-some c c' s later s'' c'' h =
    subst (IsLater c) (ap (λ r. r.1) (some-injective (s, c') (s'', c'') h)) later

Moves-same : (c : Console) (s : Machine) → Moves c (some (s, c))
Moves-same c s = Moves-some c c s (IsLater-refl c)

Moves-if :
    (c : Console) (test : Bool) (a b : Option (Machine × Console))
    → Moves c a
    → Moves c b
    → Moves c (if test then a else b)
Moves-if c true a b on_true on_false = on_true
Moves-if c false a b on_true on_false = on_false

Moves-bind :
    {A : Type 0} (c : Console) (x : Option A) (f : A → Option (Machine × Console))
    → ((a : A) → Moves c (f a))
    → Moves c (x >>= f)
Moves-bind c none f each = Moves-none c
Moves-bind c (some a) f each = each a

Moves-silent : (c : Console) (m : Option Machine) → Moves c (silent c m)
Moves-silent c none = Moves-none c
Moves-silent c (some s) = Moves-same c s

Moves-written :
    (c : Console) (s : Machine) (text : Text)
    → Moves c (some (s, record c { output = c.output ++ text }))
unfolding IsLater
Moves-written c s text =
    Moves-some c (record c { output = c.output ++ text }) s ([], text, refl, refl)

Moves-written_line :
    (c : Console) (s : Machine) (text : Text)
    → Moves c (some (s, record c { output = c.output ++ text ++ 10 ∷ [] }))
unfolding IsLater
Moves-written_line c s text =
    Moves-some c (record c { output = c.output ++ text ++ 10 ∷ [] }) s
      ([], text ++ 10 ∷ [], refl, append_assoc c.output text (10 ∷ []))

ruleset moves =
    (Moves-none, Moves-same, Moves-if, Moves-bind, Moves-silent, Moves-written, Moves-written_line)

typed_next :
    (input : List Text) (output : Text) (s : Machine)
    → Moves
        (record { input = input; output = output })
        (get_input (record { input = input; output = output }) s)
unfolding get_input IsLater Moves
typed_next [] output s s' c' h = cc
typed_next (text ∷ rest) output s s' c' h =
    let (typed, written, i, o) =
      Moves-silent (record { input = rest; output = output }) (b_get_input text s) s' c' h in
    (text ∷ typed, written, ap (λ (x : List Text). text ∷ x) i, o)

get_input-Moves : (c : Console) (s : Machine) → Moves c (get_input c s)
get_input-Moves c s = typed_next c.input c.output s

handle_display-Moves : (c : Console) (s : Machine) → Moves c (handle_display c s)
unfolding handle_display
handle_display-Moves c s = search moves

module _ (unit : FloatUnit) (float_text : FloatText) (host : Host) where
  pass-Moves : (code : ℕ) (c : Console) (s : Machine) → Moves c (pass unit float_text host code c s)
  unfolding pass
  pass-Moves code c s = search (moves, get_input-Moves, handle_display-Moves) depth 12

  pub int_call-Moves :
      (arg : ArgTuple) (c : Console) (s : Machine) → Moves c (int_call unit float_text host arg c s)
  unfolding int_call
  int_call-Moves arg c s = search (moves, pass-Moves)
