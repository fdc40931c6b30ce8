-- ===== src/Compilers/Templates.antt =====
-- internal/sandbox/compiler.go: the templates of the languages, and the compiler that must exist.
pub mod Loaded
use cars.Base.{
  Bool, true, false, Option, none, some, List, [], ◌∷◌, ◌++◌, Text, txt, map, if◌then◌else◌,
}
use cars.Base.Map.{lookup, insert}
use cars.Base.Outcome.{Outcome, ok, panic, unknown_language}
use cars.Compilers.{LanguageCompiler, compilers, get_compiler}
use cars.Compilers.Embedded.{embedded_templates}
use cars.Unix.{to_lower}

abbrev found_or_panic : Option LanguageCompiler → Outcome LanguageCompiler
found_or_panic none = panic unknown_language
found_or_panic (some c) = ok c

-- `mustGetCompilerByLanguage`.
unfoldable pub must_get_compiler_by_language : (Text → Text) → Text → Outcome LanguageCompiler
must_get_compiler_by_language lower_unicode language =
    found_or_panic (get_compiler (to_lower lower_unicode language))

-- The package variables `CompilerTemplate` and `once`.
pub record Templates : Type 0 where
  pub compiler_template : List (Text × Text)
  pub once : Bool

abbrev pub no_templates : Templates
no_templates = record { compiler_template = []; once = false }

-- `fmt.Sprintf("templates/%s.txt", s)`.
abbrev pub template_path : Text → Text
template_path s = txt "templates/" ++ (s ++ txt ".txt")

abbrev with_template : Text → Option Text → List (Text × Text) → List (Text × Text)
with_template s none m = m
with_template s (some content) m = insert s content m

-- The loop, for an order of the map's entries; a language without a file is left out.
unfoldable pub load_templates :
    List (Text × LanguageCompiler) → List (Text × Text) → List (Text × Text)
load_templates [] m = m
load_templates ((s, c) ∷ order) m =
    load_templates order (with_template s (lookup (template_path s) embedded_templates) m)

-- `LoadEmbeddedTemplateFiles`.
unfoldable pub load_embedded_template_files : List (Text × LanguageCompiler) → Templates → Templates
unfolding load_templates
load_embedded_template_files order t =
    if t.once
    then t
    else record { compiler_template = load_templates order t.compiler_template; once = true }
