-- ===== src/Compilers/Interpreted.antt =====
-- The interpreted languages of internal/sandbox/compiler.go.
use cars.Base.{[], true, txt}
use cars.Compilers.Defs.{LanguageCompiler}

abbrev pub python2 : LanguageCompiler
python2 = record {
  language = txt "Python 2 (pypy)";
  dockerfile = txt "python2";
  compiler = [];
  run_steps = txt "pypy /input/solution.py";
  compile_steps = [];
  interpreter = true;
  virtual_machine_name = txt "virtual_machine_python2";
  source_file = txt "solution.py";
  output_file = txt "output";
  output_err_file = txt "output_error";
  compiler_output_file = txt "compile";
  input_file = txt "input";
}

abbrev pub python : LanguageCompiler
python = record {
  language = txt "Python (pypy)";
  dockerfile = txt "python";
  compiler = [];
  run_steps = txt "pypy /input/solution.py";
  compile_steps = [];
  interpreter = true;
  virtual_machine_name = txt "virtual_machine_python";
  source_file = txt "solution.py";
  output_file = txt "output";
  output_err_file = txt "output_error";
  compiler_output_file = txt "compile";
  input_file = txt "input";
}

abbrev pub node : LanguageCompiler
node = record {
  language = txt "NodeJs (Javascript)";
  dockerfile = txt "node";
  compiler = [];
  run_steps = txt "node /input/solution.js";
  compile_steps = [];
  interpreter = true;
  virtual_machine_name = txt "virtual_machine_node";
  source_file = txt "solution.js";
  output_file = txt "output";
  output_err_file = txt "output_error";
  compiler_output_file = txt "compile";
  input_file = txt "input";
}

abbrev pub ruby : LanguageCompiler
ruby = record {
  language = txt "Ruby";
  dockerfile = txt "ruby";
  compiler = [];
  run_steps = txt "ruby /input/solution.rb";
  compile_steps = [];
  interpreter = true;
  virtual_machine_name = txt "virtual_machine_ruby";
  source_file = txt "solution.rb";
  output_file = txt "output";
  output_err_file = txt "output_error";
  compiler_output_file = txt "compile";
  input_file = txt "input";
}

abbrev pub php : LanguageCompiler
php = record {
  language = txt "PHP";
  dockerfile = txt "php";
  compiler = [];
  run_steps = txt "php /input/solution.php";
  compile_steps = [];
  interpreter = true;
  virtual_machine_name = txt "virtual_machine_php";
  source_file = txt "solution.php";
  output_file = txt "output";
  output_err_file = txt "output_error";
  compiler_output_file = txt "compile";
  input_file = txt "input";
}
