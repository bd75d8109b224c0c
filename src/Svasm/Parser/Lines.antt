-- ===== src/Svasm/Parser/Lines.antt =====
-- SVASM/Assembler/parser.cpp, `fetch_lines`: the lines of a file and their numbers.
use virtual_processing_unit.Prelude.{
  ℕ, ◌+◌, ◌≡◌, ◌≢◌, refl, ap, ◌∙◌, arith, List, [], ◌∷◌, ◌++◌, if◌then◌else◌, Bool-cases, inl, inr,
  All,
}
use virtual_processing_unit.Text.{Text}
use virtual_processing_unit.Svasm.{ok}
use virtual_processing_unit.Svasm.Parser.{split_lines, is_skipped, fetch_loop, fetch_lines}

-- The text of a file with these lines, each with its newline.
abbrev pub join_lines : List Text → Text
join_lines [] = []
join_lines (l ∷ ls) = l ++ b'\n' ∷ join_lines ls

-- Lines with their numbers, from `n` on.
abbrev pub number_lines : ℕ → List Text → List (Text × ℕ)
number_lines n [] = []
number_lines n (l ∷ ls) = (l, n) ∷ number_lines (n + 1) ls

-- The lines that are neither empty nor comments.
abbrev pub drop_skipped : List (Text × ℕ) → List (Text × ℕ)
drop_skipped [] = []
drop_skipped ((l, n) ∷ ls) =
    let rest = drop_skipped ls in if is_skipped l then rest else (l, n) ∷ rest

abbrev pub IsLine : Text → Type 0
IsLine = All (λ c. c ≢ b'\n')

split_lines-append :
    (l : Text) (rest : Text) → IsLine l → split_lines (l ++ b'\n' ∷ rest) ≡ l ∷ split_lines rest
unfolding split_lines
split_lines-append [] rest h = refl
split_lines-append (c ∷ l) rest h = ground (arith, split_lines-append l rest)

split_lines-join_lines : (ls : List Text) → All IsLine ls → split_lines (join_lines ls) ≡ ls
unfolding split_lines
split_lines-join_lines [] h = refl
split_lines-join_lines (l ∷ ls) h =
    split_lines-append l (join_lines ls) h.0 ∙ ap (λ ls'. l ∷ ls') (split_lines-join_lines ls h.1)

fetch_loop-eq :
    (ls : List Text) (size n : ℕ) → fetch_loop ls size n ≡ drop_skipped (number_lines (size + n) ls)
unfolding fetch_loop
fetch_loop-eq [] size n = refl
fetch_loop-eq (l ∷ ls) size n = elim (Bool-cases (is_skipped l)) [
  | inl skip ↦ rw skip (fetch_loop-eq ls size (n + 1) ∙ ap from_number (omega arith))
  | inr keep ↦
      rw keep
        (ap (λ r. (l, size + n) ∷ r) (fetch_loop-eq ls (size + 1) n ∙ ap from_number (omega arith)))
]
  where
    from_number : ℕ → List (Text × ℕ)
    from_number k = drop_skipped (number_lines k ls)

fetch_lines-cons :
    (c : ℕ) (t : Text) → fetch_lines (c ∷ t) ≡ ok (fetch_loop (split_lines (c ∷ t)) 0 1)
unfolding fetch_lines
fetch_lines-cons c t = refl

-- The lines of a file that has one, in their order, without the empty ones and the comments, each
-- with its number counted from 1.
pub fetch_lines-join_lines :
    (l : Text) (ls : List Text)
    → All IsLine (l ∷ ls)
    → fetch_lines (join_lines (l ∷ ls)) ≡ ok (drop_skipped (number_lines 1 (l ∷ ls)))
unfolding fetch_lines
fetch_lines-join_lines [] ls h =
    ap (λ ls'. ok (fetch_loop ls' 0 1)) (split_lines-join_lines ([] ∷ ls) h)
    ∙ ap ok (fetch_loop-eq ([] ∷ ls) 0 1)
fetch_lines-join_lines (c ∷ l) ls h =
    ap (λ ls'. ok (fetch_loop ls' 0 1)) (split_lines-join_lines ((c ∷ l) ∷ ls) h)
    ∙ ap ok (fetch_loop-eq ((c ∷ l) ∷ ls) 0 1)
