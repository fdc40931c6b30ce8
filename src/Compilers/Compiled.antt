-- ===== src/Compilers/Compiled.antt =====
-- The compiled languages of internal/sandbox/compiler.go, without the .NET and the JVM languages.
use cars.Base.{[], ◌∷◌, false, txt}
use cars.Compilers.Defs.{LanguageCompiler}

abbrev pub rust : LanguageCompiler
rust = record {
  language = txt "Rust";
  dockerfile = txt "rust";
  compiler = txt "rustc";
  run_steps = txt "/solution";
  compile_steps = txt "rustc -o /solution /input/solution.rs" ∷ [];
  interpreter = false;
  virtual_machine_name = txt "virtual_machine_rust";
  source_file = txt "solution.rs";
  output_file = txt "output";
  output_err_file = txt "output_error";
  compiler_output_file = txt "compile";
  input_file = txt "input";
}

abbrev pub go : LanguageCompiler
go = record {
  language = txt "Golang";
  dockerfile = txt "go";
  compiler = txt "go";
  run_steps = txt "/solution";
  compile_steps =
      txt "cp /input/solution.go /project/main.go"
      ∷ txt "go build -o /solution /project/main.go"
      ∷ [];
  interpreter = false;
  virtual_machine_name = txt "virtual_machine_go";
  source_file = txt "solution.go";
  output_file = txt "output";
  output_err_file = txt "output_error";
  compiler_output_file = txt "compile";
  input_file = txt "input";
}

abbrev pub c : LanguageCompiler
c = record {
  language = txt "C";
  dockerfile = txt "gcc";
  compiler = txt "gcc";
  run_steps = txt "/solution";
  compile_steps = txt "gcc -g -O2 -std=gnu11 -static -o /solution /input/solution.c -lm" ∷ [];
  interpreter = false;
  virtual_machine_name = txt "virtual_machine_gcc";
  source_file = txt "solution.c";
  output_file = txt "output";
  output_err_file = txt "output_error";
  compiler_output_file = txt "compile";
  input_file = txt "input";
}

abbrev pub cpp : LanguageCompiler
cpp = record {
  language = txt "C++";
  dockerfile = txt "gcc";
  compiler = txt "gcc";
  run_steps = txt "/solution";
  compile_steps =
      txt
        "g++ -g -O2 -std=gnu++17 -static -lrt -Wl,--whole-archive -lpthread -Wl,--no-whole-archive -o /solution /input/solution.cpp"
      ∷ [];
  interpreter = false;
  virtual_machine_name = txt "virtual_machine_gcc";
  source_file = txt "solution.cpp";
  output_file = txt "output";
  output_err_file = txt "output_error";
  compiler_output_file = txt "compile";
  input_file = txt "input";
}
