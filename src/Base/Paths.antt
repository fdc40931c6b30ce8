-- ===== src/Base/Paths.antt =====
-- `filepath.Join` and `filepath.Clean` on a Unix system.
use mathlib.Core.Path.{◌≡◌, refl}
use mathlib.Core.Bool.{Bool, false, ◌||◌}
use mathlib.Core.List.{List, [], ◌∷◌, ◌++◌, reverse}
use cars.Base.Tests.{◌==◌, if◌then◌else◌}
use cars.Base.Strings.{Text, txt, same, split, join}

abbrev slash : Text
slash = b'/' ∷ []

-- One `..`: it undoes the name before it, vanishes at the root, and stays otherwise. The names are
-- in reverse.
climb : Bool → List Text → List Text
climb rooted [] = if rooted then [] else txt ".." ∷ []
climb rooted (name ∷ above) = if same name (txt "..") then txt ".." ∷ name ∷ above else above

-- The names of a path, in reverse, after those of `above`.
resolve : Bool → List Text → List Text → List Text
unfolding climb
resolve rooted [] above = above
resolve rooted (name ∷ names) above = resolve rooted names (
    if same name [] || same name (txt ".")
    then above
    else if same name (txt "..")
    then climb rooted above
    else name ∷ above)

abbrev is_rooted : Text → Bool
is_rooted [] = false
is_rooted (c ∷ s) = c == b'/'

abbrev or_dot : Text → Text
or_dot [] = txt "."
or_dot (c ∷ s) = c ∷ s

unfoldable pub clean : Text → Text
unfolding resolve
clean path = or_dot (
    (if is_rooted path then slash else [])
    ++ join slash (reverse (resolve (is_rooted path) (split b'/' path) [])))

-- A second slash at the root changes nothing.
pub clean-slashes : (t : Text) → clean (b'/' ∷ b'/' ∷ t) ≡ clean (b'/' ∷ t)
unfolding clean split resolve same
clean-slashes t = refl

-- The empty elements are left out.
abbrev non_empty : List Text → List Text
non_empty [] = []
non_empty ([] ∷ ps) = non_empty ps
non_empty ((c ∷ s) ∷ ps) = (c ∷ s) ∷ non_empty ps

abbrev clean_all : List Text → Text
clean_all [] = []
clean_all (p ∷ ps) = clean (join slash (p ∷ ps))

unfoldable pub join_path : List Text → Text
join_path elements = clean_all (non_empty elements)

join_path_test :
    join_path (txt "/tmp/" ∷ txt "executions" ∷ txt "./raw/../x" ∷ []) ≡ txt "/tmp/executions/x"
unfolding join_path clean split join same
join_path_test = refl
