-- ===== src/Compilers/Managed.antt =====
-- The .NET and JVM languages of internal/sandbox/compiler.go.
use cars.Base.{[], ◌∷◌, false, txt}
use cars.Compilers.Defs.{LanguageCompiler}

abbrev pub fsharp : LanguageCompiler
fsharp = record {
  language = txt "F#";
  dockerfile = txt "dotnet";
  compiler = txt "dotnet";
  run_steps = txt "/{{.ID}}-output/template-f";
  compile_steps =
      txt "cp -R /template-f/ /{{.ID}}/"
      ∷ txt "cp /input/solution.fs /{{.ID}}/Program.fs"
      ∷ txt "dotnet build --configuration Release -o /{{.ID}}-output/ /{{.ID}}/"
      ∷ [];
  interpreter = false;
  virtual_machine_name = txt "virtual_machine_dotnet";
  source_file = txt "solution.fs";
  output_file = txt "output";
  output_err_file = txt "output_error";
  compiler_output_file = txt "compile";
  input_file = txt "input";
}

abbrev pub csharp : LanguageCompiler
csharp = record {
  language = txt "C#";
  dockerfile = txt "dotnet";
  compiler = txt "dotnet";
  run_steps = txt "/{{.ID}}-output/template-c";
  compile_steps =
      txt "cp -R /template-c/ /{{.ID}}/"
      ∷ txt "cp /input/solution.cs /{{.ID}}/Program.cs"
      ∷ txt "dotnet build --configuration Release -o /{{.ID}}-output/ /{{.ID}}/"
      ∷ [];
  interpreter = false;
  virtual_machine_name = txt "virtual_machine_dotnet";
  source_file = txt "solution.cs";
  output_file = txt "output";
  output_err_file = txt "output_error";
  compiler_output_file = txt "compile";
  input_file = txt "input";
}

abbrev pub java : LanguageCompiler
java = record {
  language = txt "Java";
  dockerfile = txt "openjdk";
  compiler = txt "openjdk";
  run_steps = txt "java -Xmx2048m -cp . Solution";
  compile_steps = txt "javac /input/Solution.java" ∷ [];
  interpreter = false;
  virtual_machine_name = txt "virtual_machine_openjdk";
  source_file = txt "Solution.java";
  output_file = txt "output";
  output_err_file = txt "output_error";
  compiler_output_file = txt "compile";
  input_file = txt "input";
}

abbrev pub scala : LanguageCompiler
scala = record {
  language = txt "Scala";
  dockerfile = txt "openjdk";
  compiler = txt "openjdk";
  run_steps = txt "/scala -J-Xmx2048m -cp . Solution";
  compile_steps = txt "/scalac /input/Solution.scala" ∷ [];
  interpreter = false;
  virtual_machine_name = txt "virtual_machine_openjdk";
  source_file = txt "Solution.scala";
  output_file = txt "output";
  output_err_file = txt "output_error";
  compiler_output_file = txt "compile";
  input_file = txt "input";
}

abbrev pub kotlin : LanguageCompiler
kotlin = record {
  language = txt "Kotlin";
  dockerfile = txt "openjdk";
  compiler = txt "openjdk";
  run_steps = txt "java -Xmx2048m -jar /solution.jar";
  compile_steps = txt "/kotlinc solution.kt -include-runtime -d /solution.jar" ∷ [];
  interpreter = false;
  virtual_machine_name = txt "virtual_machine_openjdk";
  source_file = txt "solution.kt";
  output_file = txt "output";
  output_err_file = txt "output_error";
  compiler_output_file = txt "compile";
  input_file = txt "input";
}
