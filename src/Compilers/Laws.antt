-- ===== src/Compilers/Laws.antt =====
-- What every entry of the compiler table has.
use cars.Base.{
  ◌≡◌, ◌≢◌, ◌↔◌, refl, Bool, true, false, not, ◌&&◌, some, List, [], ◌∷◌, Text, same, same_iff, all,
  All-of_all, arith, if◌then◌else◌,
}
use cars.Base.Map.{lookup-All}
use cars.Compilers.{LanguageCompiler, compilers, get_compiler}

-- Four names that differ from each other.
abbrev pub Distinct : Text → Text → Text → Text → Type 0
Distinct a b c d = (a ≢ b) × (a ≢ c) × (a ≢ d) × (b ≢ c) × (b ≢ d) × (c ≢ d)

is_nil : List Text → Bool
is_nil [] = true
is_nil (x ∷ xs) = false

-- The same tests as one Boolean.
checked : LanguageCompiler → Bool
unfolding is_nil
checked c =
    (if c.interpreter then is_nil c.compile_steps else not (is_nil c.compile_steps))
    && not (same c.output_file c.output_err_file)
    && not (same c.output_file c.compiler_output_file)
    && not (same c.output_file c.source_file)
    && not (same c.output_err_file c.compiler_output_file)
    && not (same c.output_err_file c.source_file)
    && not (same c.compiler_output_file c.source_file)

compilers-checked : all (λ e. checked e.1) compilers ≡ true
unfolding checked same
compilers-checked = refl

-- What the table promises of an entry: compile steps exactly if it is no interpreter, and files
-- that do not overwrite each other.
abbrev pub IsUsable : LanguageCompiler → Type 0
IsUsable c =
    ((c.interpreter ≡ true) ↔ (c.compile_steps ≡ []))
    × Distinct c.output_file c.output_err_file c.compiler_output_file c.source_file

checked-IsUsable : (c : LanguageCompiler) → checked c ≡ true → IsUsable c
unfolding checked
checked-IsUsable c h = ground (
  arith,
  same_iff c.output_file c.output_err_file,
  same_iff c.output_file c.compiler_output_file,
  same_iff c.output_file c.source_file,
  same_iff c.output_err_file c.compiler_output_file,
  same_iff c.output_err_file c.source_file,
  same_iff c.compiler_output_file c.source_file,
)

-- Every compiler that the table gives for a language has compile steps exactly if it is no
-- interpreter, and its source file and its three result files have four different names.
pub get_compiler-IsUsable :
    (language : Text) (c : LanguageCompiler) → get_compiler language ≡ some c → IsUsable c
unfolding get_compiler
get_compiler-IsUsable language c h = checked-IsUsable c (
    lookup-All (λ k v. checked v ≡ true) language compilers h
      (All-of_all (λ e. checked e.1) compilers compilers-checked))
