-- ===== src/Assembler/Load.antt =====
-- The assembler of SVASM/Assembler against the runner of VirtualExecutableRunner/runner_main.cpp.
use virtual_processing_unit.Prelude.{
  ℕ, ◌+◌, ◌*◌, ◌<◌, ◌^◌, ◌≡◌, refl, ap, ◌∙◌, arith, Option, none, some, List, length, map, All,
}
use virtual_processing_unit.Memory.{Memory}
use virtual_processing_unit.Memory.Sdz.{IsZone}
use virtual_processing_unit.Memory.Stack.{alloc}
use virtual_processing_unit.Floats.{long_double_size}
use virtual_processing_unit.Text.{Text}
use virtual_processing_unit.Svasm.{ok, bind-ok, SvasmAction}
use virtual_processing_unit.Svasm.Parser.{main_parse}
use virtual_processing_unit.Svasm.Tokenizer.{tokenizer}
use virtual_processing_unit.Svasm.Preprocessor.Program.{preproc_tokenized-HasTarget}
use virtual_processing_unit.Svasm.Compile.{compile_all, requested}
use virtual_processing_unit.Loader.{Action, decode_byte_array, decode_file}
use virtual_processing_unit.Loader.RoundTrip.{HasTarget}
use virtual_processing_unit.Loader.Program.{load_all}
use virtual_processing_unit.Loader.Executable.{link, decode-link-compile_all}
use virtual_processing_unit.Assembler.{front_end, assemble}

-- What the front end gives can be loaded, and asks for no memory.
pub front_end-HasTarget :
    (file : Option Text) (actions : List SvasmAction) (new_mem_size : Option ℕ)
    → front_end file ≡ ok (actions, new_mem_size)
    → All HasTarget actions × (new_mem_size ≡ none)
unfolding front_end
front_end-HasTarget file actions new_mem_size h =
    let (parsed, one, h') = bind-ok (main_parse file) _ (actions, new_mem_size) h in
    let (tokens, two, three) = bind-ok (tokenizer parsed.1 parsed.0) _ (actions, new_mem_size) h' in
    preproc_tokenized-HasTarget parsed.1 parsed.0 tokens actions new_mem_size two three

default_size : requested none ≡ 0x100000
unfolding requested
default_size = refl

-- Whatever source file the stages of the assembler accept, they write an executable file that the
-- runner reads and loads into every memory with room for a page per action: the actions of the
-- preprocessor in their order, each with the argument that it stands for in the static data zone.
-- The amount of memory that the runner finds in the file is a megabyte whatever the source says.
pub assemble-decode :
    (stold_bytes : Text → Option (List ℕ)) (fresh : ℕ → ℕ)
    (size : (raw : Text) (bs : List ℕ) → stold_bytes raw ≡ some bs → length bs ≡ long_double_size)
    (file : Option Text) (actions : List SvasmAction) (new_mem_size : Option ℕ) (out_bytes : List ℕ)
    (m : Memory)
    → length out_bytes < 2 ^ 64
    → IsZone m
    → alloc m + 0x1000 * length actions < 2 ^ 62
    → front_end file ≡ ok (actions, new_mem_size)
    → compile_all stold_bytes new_mem_size actions ≡ ok out_bytes
    → (code : List ℕ) × (loaded : List Action) × (m' : Memory) × (assemble stold_bytes file
        ≡ ok (link out_bytes))
      × (decode_file (link out_bytes) ≡ some (0x100000, code))
      × (decode_byte_array fresh code m ≡ some (loaded, m'))
      × (load_all stold_bytes fresh actions m ≡ some (loaded, m'))
      × (map (λ a. a.act) loaded ≡ map (λ a. a.action) actions)
      × (m'.memlen ≡ m.memlen)
unfolding assemble
assemble-decode stold_bytes fresh size file actions new_mem_size out_bytes m fits zone room front
      compiled =
    let (targets, no_request) = front_end-HasTarget file actions new_mem_size front in
    let amount : requested new_mem_size ≡ 0x100000 = ap requested no_request ∙ default_size in
    let (code, loaded, m', decoded, total, same, acts, len) =
      decode-link-compile_all stold_bytes fresh size new_mem_size actions out_bytes m targets
        (rw amount (omega arith)) fits zone room compiled in
    (
      code,
      loaded,
      m',
      rw (front, compiled),
      decoded ∙ ap (λ (n : ℕ). some (n, code)) amount,
      total,
      same,
      acts,
      len,
    )
