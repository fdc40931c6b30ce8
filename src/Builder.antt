-- ===== src/Builder.antt =====
-- cmd/tools/container-builder/main.go: the tool that builds the images of the languages.
use cars.Base.{
  ◌≢◌, ◌⊎◌, inl, inr, same_iff, Bool-cases, Option-cases, ◌≡◌, refl, ap, Bool, Option, none, some,
  List, [], ◌∷◌, ◌++◌, Text, txt, map, same, contains, if◌then◌else◌,
}
use cars.Base.Outcome.{Outcome, ok, panic, Error, log_fatal}
use cars.Base.State.{Exec, continue, ◌>>◌}
use mathlib.Core.Path.{fun_ext}
use cars.Compilers.{LanguageCompiler, get_compiler}
use cars.Unix.{to_lower}

-- The command of `exec.Command`, and whether its output is shown.
pub record DockerBuild : Type 0 where
  pub args : List Text
  pub shows_output : Bool

-- What the tool uses: running a command, and the texts that are not ASCII.
pub record Host (S : Type 0) : Type 0 where
  pub run : DockerBuild → S → Option Error × S
  pub lower_unicode : Text → Text
  pub trim_space : Text → Text

module _ {S : Type 0} (host : Host S) where
  -- The command for a language.
  abbrev pub docker_build : Bool → LanguageCompiler → DockerBuild
  docker_build verbose c =
      let path =
        txt "./build/dockerfiles/"
        ++ (to_lower host.lower_unicode c.dockerfile ++ txt ".dockerfile") in
      record {
        args =
            txt "docker"
            ∷ txt "build"
            ∷ txt "-f"
            ∷ path
            ∷ txt "-t"
            ∷ c.virtual_machine_name
            ∷ ((if verbose then txt "--progress=plain" ∷ [] else []) ++ txt "." ∷ []);
        shows_output = verbose;
      }

  -- `log.Fatal` on an error.
  abbrev finished : Option Error × S → Outcome (Unit {0}) × S
  finished (none, s) = (ok tt, s)
  finished (some e, s) = (panic log_fatal, s)

  -- `runDockerCommand`.
  unfoldable pub run_docker_command : LanguageCompiler → Bool → Exec S (Unit {0})
  run_docker_command c verbose s = finished (host.run (docker_build verbose c) s)

  -- The loop over the compilers, in any order of the table, with the map `completed`, of which only
  -- the keys matter, and in which the loop never puts anything.
  unfoldable pub build_each : List Text → Bool → List (Text × LanguageCompiler) → Exec S (Unit {0})
  unfolding run_docker_command
  build_each completed verbose [] s = (ok tt, s)
  build_each completed verbose ((language, c) ∷ order) s =
      let skipped = build_each completed verbose order s in
      if contains c.virtual_machine_name completed
      then skipped
      else (run_docker_command c verbose >> build_each completed verbose order) s

  abbrev build_one : Option LanguageCompiler → Bool → Exec S (Unit {0})
  build_one none verbose s = (panic log_fatal, s)
  build_one (some c) verbose s = run_docker_command c verbose s

  -- `main`, with the values of the flags.
  unfoldable pub build_main : Text → Bool → List (Text × LanguageCompiler) → Exec S (Unit {0})
  unfolding build_each
  build_main filter_name verbose order s =
      if same (host.trim_space filter_name) []
      then build_each [] verbose order s
      else build_one (get_compiler filter_name) verbose s

  -- Commands one after the other, up to the first that fails.
  unfoldable pub run_in_turn : List DockerBuild → Exec S (Unit {0})
  run_in_turn [] s = (ok tt, s)
  run_in_turn (b ∷ bs) s = ((λ t. finished (host.run b t)) >> run_in_turn bs) s

  builds_every :
      (verbose : Bool) (order : List (Text × LanguageCompiler)) (s : S)
      → build_each [] verbose order s ≡ run_in_turn (map (λ e. docker_build verbose e.1) order) s
  unfolding build_each run_docker_command run_in_turn contains
  builds_every verbose [] s = refl
  builds_every verbose ((language, c) ∷ order) s =
      ap (continue (finished (host.run (docker_build verbose c) s)))
        (fun_ext λ t. fun_ext λ u. builds_every verbose order u)

  -- Without a language, the tool runs the command of every entry of the table in the order in which
  -- the loop meets them, up to the first command that fails, also where two languages have the same
  -- image. With a language that has no compiler it stops and runs nothing, and with any other
  -- language it runs the one command.
  pub build_main_lem :
      (filter_name : Text) (verbose : Bool) (order : List (Text × LanguageCompiler)) (s : S)
      → ((host.trim_space filter_name ≡ [])
          × (build_main filter_name verbose order s
              ≡ run_in_turn (map (λ e. docker_build verbose e.1) order) s))
        ⊎ ((host.trim_space filter_name ≢ [])
            × (((get_compiler filter_name ≡ none)
                  × (build_main filter_name verbose order s ≡ (panic log_fatal, s)))
                ⊎ ((c : LanguageCompiler) × (get_compiler filter_name ≡ some c)
                    × (build_main filter_name verbose order s ≡ run_docker_command c verbose s))))
  unfolding build_main
  build_main_lem filter_name verbose order s =
      elim (Bool-cases (same (host.trim_space filter_name) [])) [
        | inl blank ↦
            inl ((same_iff _ _).0 blank, rw (blank, build_main) (builds_every verbose order s))
        | inr named ↦ inr (
          (λ e. absurd (cc ((same_iff _ _).1 e, named))),
          elim (Option-cases (get_compiler filter_name)) [
            | inl e ↦ inl (e, rw (named, build_main) (rw e refl))
            | inr (c, e) ↦ inr (c, e, rw (named, build_main) (rw e refl))
          ],
        )
      ]
