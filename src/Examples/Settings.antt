-- ===== src/Examples/Settings.antt =====
-- A machine's profile and a language's compiler.
use cars.Base.{
  ◌≡◌, refl, false, some, [], ◌∷◌, Text, txt, same, map, lacks, split, join, ◌+◌, arith,
  if◌then◌else◌,
}
use cars.Unix.{convert_path_to_unix, lower_byte}
use cars.Unix.Drives.{convert_path_to_unix_lem}
use cars.Base.Map.{lookup}
use cars.Base.Outcome.{ok}
use cars.Compilers.{get_compiler}
use cars.Compilers.Compiled.{rust}
use cars.Compilers.Laws.{IsUsable, get_compiler-IsUsable}
use cars.Profile.{Host, runtimes, missing_file, start, get_profile_for_machine}
use cars.Profile.Selection.{chosen, get_profile_for_machine-chosen}

rust_found : get_compiler (txt "rust") ≡ some rust
unfolding get_compiler lookup same
rust_found = refl

get_compiler-IsUsable_example : IsUsable rust
get_compiler-IsUsable_example = get_compiler-IsUsable (txt "rust") rust rust_found

abbrev staging_host : Host
staging_host = record {
  environment = txt "staging";
  is_windows = false;
  daemon_file = runtimes (txt "runc" ∷ txt "runsc" ∷ []);
}

abbrev changed_host : Host
changed_host = record staging_host { environment = txt "production"; daemon_file = missing_file }

get_profile_for_machine-chosen_example :
    let (result, g) = get_profile_for_machine staging_host start in
    (result ≡ ok (some (chosen staging_host)))
    × (get_profile_for_machine changed_host g ≡ (ok (some (chosen staging_host)), g))
get_profile_for_machine-chosen_example =
    get_profile_for_machine-chosen staging_host changed_host refl

-- What a host of Windows makes absolute, and a directory of Linux with a capital letter.
abbrev made_absolute : Text → Text
made_absolute p = if same p [] then txt "/Data/x" else txt "C:\\Data\\x"

convert_path_to_unix_lem_example :
    (convert_path_to_unix made_absolute (λ p. p) (txt "p")
      ≡ b'/' ∷ (b'C' + 32) ∷ join (txt "/") (split b'\\' (txt "\\Data\\x")))
    × (convert_path_to_unix made_absolute (λ p. p) [] ≡ b'/' ∷ map lower_byte (txt "/Data/x"))
unfolding lacks same
convert_path_to_unix_lem_example =
    convert_path_to_unix_lem made_absolute (λ p. p) (txt "p") [] (txt "\\Data\\x") (txt "/Data/x")
      b'C' (omega arith) (omega arith) refl refl refl refl refl refl
