-- ===== src/Compilers.antt =====
-- internal/sandbox/compiler.go: the supported languages.
mod Defs
pub mod Interpreted
pub mod Compiled
pub mod Managed
pub mod Laws
pub mod Embedded
pub mod Templates
pub use Defs.*
use cars.Base.{
  ℕ, Bool, true, false, Option, none, some, List, [], ◌∷◌, Text, txt, same, map, if◌then◌else◌,
}
use cars.Base.Map.{lookup}
use cars.Base.Outcome.{Outcome, ok, panic, unknown_language}
use Interpreted.{python2, python, node, ruby, php}
use Compiled.{rust, go, c, cpp}
use Managed.{fsharp, csharp, java, scala, kotlin}

-- The map `Compilers`, in the order of the source. A range over a Go map is in any order.
abbrev pub compilers : List (Text × LanguageCompiler)
compilers =
    (txt "python2", python2)
    ∷ (txt "python", python)
    ∷ (txt "node", node)
    ∷ (txt "ruby", ruby)
    ∷ (txt "rust", rust)
    ∷ (txt "go", go)
    ∷ (txt "c", c)
    ∷ (txt "cpp", cpp)
    ∷ (txt "fsharp", fsharp)
    ∷ (txt "csharp", csharp)
    ∷ (txt "java", java)
    ∷ (txt "scala", scala)
    ∷ (txt "kotlin", kotlin)
    ∷ (txt "php", php)
    ∷ []

-- `Compilers[language]`, where `none` is the nil pointer.
unfoldable pub get_compiler : Text → Option LanguageCompiler
unfolding lookup
get_compiler language = lookup language compilers
