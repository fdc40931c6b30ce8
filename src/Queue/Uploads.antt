-- ===== src/Queue/Uploads.antt =====
-- The files that a handled request leaves for its user.
use cars.Base.{
  ◌≡◌, ◌≢◌, refl, true, Bool-cases, inl, inr, List, [], ◌∷◌, map, some, Text, split, split-join,
  join, lacks, All, arith, if◌then◌else◌,
}
use cars.Compilers.{LanguageCompiler, get_compiler}
use cars.Compilers.Laws.{get_compiler-IsUsable}
use cars.Sandbox.{Response}
use cars.Queue.{upload_files}

-- Lines as they come from the runner: there is one, and none has a newline in it.
abbrev pub IsLines : List Text → Type 0
IsLines ls = (ls ≢ []) × All (λ s. lacks b'\n' s ≡ true) ls

lines_split : (ls : List Text) → IsLines ls → split b'\n' (join (b'\n' ∷ []) ls) ≡ ls
lines_split [] h = absurd (h.0 refl)
lines_split (l ∷ ls) h = split-join b'\n' l ls h.1

abbrev pub Unique : List Text → Type 0
Unique [] = Unit
Unique (x ∷ xs) = All (λ y. x ≢ y) xs × Unique xs

-- If each of the three outputs of a response has a line, and no line has a newline in it, then the
-- files that are uploaded for a language of the compiler table hold the lines of the output, of the
-- error output and, unless the language is interpreted, of the compiler's output; they have
-- different names, and none replaces the source file.
pub upload_files_lem :
    (language id : Text) (c : LanguageCompiler) (r : Response)
    → get_compiler language ≡ some c
    → IsLines r.output
    → IsLines r.output_error
    → IsLines r.compiler_output
    → let names = map (λ f. f.name) (upload_files id c r) in
      (map (λ f. split b'\n' f.content) (upload_files id c r)
        ≡ r.output ∷ r.output_error ∷ (if c.interpreter then [] else r.compiler_output ∷ []))
      × Unique names
      × All (λ name. name ≢ c.source_file) names
upload_files_lem language id c r e o f k =
    let usable = (get_compiler-IsUsable language c e).1 in
    elim (Bool-cases c.interpreter) [
      | inl i ↦ ground (arith, lines_split r.output o, lines_split r.output_error f)
      | inr n ↦ ground (
        arith,
        lines_split r.output o,
        lines_split r.output_error f,
        lines_split r.compiler_output k,
      )
    ]
