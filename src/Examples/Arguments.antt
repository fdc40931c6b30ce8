-- ===== src/Examples/Arguments.antt =====
-- The arguments of a process without flags.
use cars.Base.{◌≡◌, ◌⊎◌, refl, ap, subst, false, true}
use cars.Base.Int.{pos}
use cars.Base.Outcome.{ok, Outcome}
use cars.Base.{List}
use cars.Parser.{
  Arguments, Flag, configuration_flags, zero_arguments, with_defaults, IsFlagPackage,
  parse_default_configuration_arguments, parse_default_configuration_arguments_lem,
}

abbrev no_flags : List Flag → Arguments → Outcome Arguments
no_flags fs a = ok (with_defaults fs a)

arguments_or : Arguments → Outcome Arguments → Arguments
arguments_or a (ok b) = b
arguments_or a _ = a

no_flags-IsFlagPackage : IsFlagPackage no_flags false
unfolding arguments_or
no_flags-IsFlagPackage = record {
  defaults = λ fs a h. refl;
  stores = λ P fs a a' h kept d. subst P (ap (arguments_or a) h) d;
}

abbrev pub default_arguments : Arguments
default_arguments = with_defaults configuration_flags zero_arguments

parse_default_configuration_arguments_lem_example :
    (default_arguments.wait_time_seconds ≡ pos 0)
    × ((false ≡ true) ⊎ (default_arguments.max_concurrent_containers ≡ pos 10))
unfolding parse_default_configuration_arguments
parse_default_configuration_arguments_lem_example =
    parse_default_configuration_arguments_lem no_flags false default_arguments
      no_flags-IsFlagPackage refl
