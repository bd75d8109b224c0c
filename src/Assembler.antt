-- ===== src/Assembler.antt =====
-- SVASM/Assembler/main.cpp: the stages of the assembler, one after the other.
pub mod Load
use virtual_processing_unit.Prelude.{ℕ, Option, List}
use virtual_processing_unit.Text.{Text}
use virtual_processing_unit.Svasm.{Svas, ok, ◌>>=◌, SvasmAction}
use virtual_processing_unit.Svasm.Parser.{main_parse}
use virtual_processing_unit.Svasm.Tokenizer.{tokenizer}
use virtual_processing_unit.Svasm.Preprocessor.{preproc_tokenized}
use virtual_processing_unit.Svasm.Compile.{compile_all}
use virtual_processing_unit.Loader.Executable.{link}

-- The parser, the tokenizer and the preprocessor on what the source file holds, if it can be opened:
-- the actions, and the amount of memory that is asked for.
unfoldable pub front_end : Option Text → Svas (List SvasmAction × Option ℕ)
unfolding main_parse tokenizer preproc_tokenized
front_end file = do
  parsed ← main_parse file
  tokens ← tokenizer parsed.1 parsed.0
  preproc_tokenized tokens

-- `main` up to the bytes that it writes.
unfoldable pub assemble : (Text → Option (List ℕ)) → Option Text → Svas (List ℕ)
unfolding front_end compile_all link
assemble stold_bytes file = do
  preprocessed ← front_end file
  out_bytes ← compile_all stold_bytes preprocessed.1 preprocessed.0
  ok (link out_bytes)
