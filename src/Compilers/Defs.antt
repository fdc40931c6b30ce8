-- ===== src/Compilers/Defs.antt =====
-- `LanguageCompiler` of internal/sandbox/compiler.go.
use cars.Base.{Bool, List, Text}

pub record LanguageCompiler : Type 0 where
  pub language : Text
  pub dockerfile : Text
  pub compiler : Text
  pub run_steps : Text
  pub compile_steps : List Text
  pub interpreter : Bool
  pub virtual_machine_name : Text
  pub source_file : Text
  pub output_file : Text
  pub output_err_file : Text
  pub compiler_output_file : Text
  pub input_file : Text
