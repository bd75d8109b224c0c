-- ===== src/Loader/Executable.antt =====
-- Executable files: `compileAll` of SVASM/Assembler/compiler.cpp and the link step of
-- SVASM/Assembler/main.cpp against `decodeFile` and `decodeByteArray` of
-- VirtualExecutableRunner/runner_main.cpp.
use virtual_processing_unit.Prelude.{
  ℕ, ◌-◌, ◌<◌, ◌^◌, ◌≡◌, refl, ap, ap₂, ◌∙◌, sym, Option, some, List, [], ◌∷◌, ◌++◌, length,
  length-append, All, arith, append_assoc, append-nil, take, drop, ◌+◌, ◌*◌, map,
}
use virtual_processing_unit.Bytes.{ulltoa, atoull, word_size}
use virtual_processing_unit.Bytes.Words.{ulltoa-IsWord, atoull-ulltoa}
use virtual_processing_unit.Memory.{Memory}
use virtual_processing_unit.Floats.{long_double_size}
use virtual_processing_unit.Text.{Text}
use virtual_processing_unit.Svasm.{ok, bind-ok, ok-injective, SvasmAction}
use virtual_processing_unit.Svasm.Compile.{compile_each, compile_all, requested}
use virtual_processing_unit.Loader.{Action, decode_byte_array, decode_file, next_bytes}
use virtual_processing_unit.Loader.RoundTrip.{HasTarget, loaded}
use virtual_processing_unit.Loader.Words.{next_bytes-append}
use virtual_processing_unit.Loader.Program.{load_all, decode_byte_array-compile_each}
use virtual_processing_unit.Loader.Total.{load_all-IsZone}
use virtual_processing_unit.Memory.Sdz.{IsZone}
use virtual_processing_unit.Memory.Stack.{alloc}

-- The lines of `main` that make an executable of what `compileAll` gives: the length of the code
-- goes between the requested amount of memory and the code.
unfoldable pub link : List ℕ → List ℕ
link output = take word_size output ++ ulltoa (length output - word_size) ++ drop word_size output

take-append : (xs ys : List ℕ) → take (length xs) (xs ++ ys) ≡ xs
take-append [] ys = refl
take-append (x ∷ xs) ys = rw (take-append xs ys)

drop-append : (xs ys : List ℕ) → drop (length xs) (xs ++ ys) ≡ ys
drop-append [] ys = refl
drop-append (x ∷ xs) ys = drop-append xs ys

next_bytes-all : (bytes : List ℕ) → next_bytes (length bytes) bytes ≡ some (bytes, [])
next_bytes-all bytes =
    ap (next_bytes (length bytes)) (sym (append-nil bytes)) ∙ next_bytes-append bytes []

link-append :
    (xs code : List ℕ)
    → length xs ≡ word_size
    → link (xs ++ code) ≡ xs ++ (ulltoa (length code) ++ code)
unfolding link
link-append xs code e = rw (← e) (
    ap₂ (λ (l r : List ℕ). l ++ r) (ap₂ (λ (l r : List ℕ). l ++ r) (take-append xs code) size)
      (drop-append xs code)
    ∙ append_assoc xs (ulltoa (length code)) code)
  where
    size : ulltoa (length (xs ++ code) - length xs) ≡ ulltoa (length code)
    size = ap ulltoa (omega (arith, length-append xs code))

decode_file-append :
    (xs ys code : List ℕ)
    → length xs ≡ word_size
    → length ys ≡ word_size
    → atoull ys ≡ length code
    → decode_file (xs ++ (ys ++ code)) ≡ some (atoull xs, code)
unfolding decode_file
decode_file-append xs ys code ex ey n =
    rw
      (
        ap (λ k. next_bytes k (xs ++ (ys ++ code))) (sym ex) ∙ next_bytes-append xs (ys ++ code),
        ap (λ k. next_bytes k (ys ++ code)) (sym ey) ∙ next_bytes-append ys code,
        n,
        next_bytes-all code,
      )
      refl

-- The runner finds in an executable the amount of memory and the code that were linked.
pub decode_file-link :
    (size : ℕ) (code : List ℕ)
    → size < 2 ^ 64
    → length code < 2 ^ 64
    → decode_file (link (ulltoa size ++ code)) ≡ some (size, code)
decode_file-link size code small fits =
    ap decode_file (link-append (ulltoa size) code (ulltoa-IsWord size).0)
    ∙ decode_file-append (ulltoa size) (ulltoa (length code)) code (ulltoa-IsWord size).0
        (ulltoa-IsWord (length code)).0 (atoull-ulltoa (length code) fits)
    ∙ ap (λ (n : ℕ). some (n, code)) (atoull-ulltoa size small)

-- What the assembler writes for a program, the runner loads into any memory whose sizes leave room
-- for one page per action: the amount of memory that was asked for, and the actions, each with its
-- meaning as its argument in the static data zone.
pub decode-link-compile_all :
    (stold_bytes : Text → Option (List ℕ)) (fresh : ℕ → ℕ)
    (size : (raw : Text) (bs : List ℕ) → stold_bytes raw ≡ some bs → length bs ≡ long_double_size)
    (req_mem : Option ℕ) (actions : List SvasmAction) (output : List ℕ) (m : Memory)
    → All HasTarget actions
    → requested req_mem < 2 ^ 64
    → length output < 2 ^ 64
    → IsZone m
    → alloc m + 0x1000 * length actions < 2 ^ 62
    → compile_all stold_bytes req_mem actions ≡ ok output
    → (code : List ℕ) × (loaded : List Action) × (m' : Memory) × (decode_file (link output)
        ≡ some (requested req_mem, code))
      × (decode_byte_array fresh code m ≡ some (loaded, m'))
      × (load_all stold_bytes fresh actions m ≡ some (loaded, m'))
      × (map (λ a. a.act) loaded ≡ map (λ a. a.action) actions)
      × (m'.memlen ≡ m.memlen)
unfolding compile_all
decode-link-compile_all stold_bytes fresh size req_mem actions output m targets small fits zone room
      h =
    let (code, each, e) = bind-ok (compile_each stold_bytes actions) _ output h in
    let shape : output ≡ ulltoa (requested req_mem) ++ code = sym (ok-injective _ output e) in
    let code_fits : length code < 2 ^ 64 =
      omega (arith, length-append (ulltoa (requested req_mem)) code, ap length shape) in
    let (loaded, m', total, same, len) =
      load_all-IsZone stold_bytes fresh size actions code m targets each zone room in
    (
      code,
      loaded,
      m',
      ap (λ o. decode_file (link o)) shape
          ∙ decode_file-link (requested req_mem) code small code_fits,
      decode_byte_array-compile_each stold_bytes fresh size actions code m targets each ∙ total,
      total,
      same,
      len,
    )
