-- ===== src/Status/Names.antt =====
-- What the generated `String` methods print.
use cars.Base.{◌≡◌, refl, List, [], ◌∷◌, Option, none, some, Text, txt, same, if◌then◌else◌, ap}
use cars.Status.{
  ContainerStatus, not_ran, created, running, killing, killed, finished, memory_constraint_exceeded,
  time_limit_exceeded, provided_test_failed, compilation_failed, run_time_error,
  non_deterministic_error, ContainerTestStatus, no_test, test_not_ran, test_failed, test_passed,
  status_string, test_status_string, container_status_string, container_test_status_string, iota,
  test_iota,
}

-- The names that the constants are declared with.
abbrev pub declared_name : ContainerStatus → Text
declared_name not_ran = txt "NotRan"
declared_name created = txt "Created"
declared_name running = txt "Running"
declared_name killing = txt "Killing"
declared_name killed = txt "Killed"
declared_name finished = txt "Finished"
declared_name memory_constraint_exceeded = txt "MemoryConstraintExceeded"
declared_name time_limit_exceeded = txt "TimeLimitExceeded"
declared_name provided_test_failed = txt "ProvidedTestFailed"
declared_name compilation_failed = txt "CompilationFailed"
declared_name run_time_error = txt "RunTimeError"
declared_name non_deterministic_error = txt "NonDeterministicError"

abbrev pub declared_test_name : ContainerTestStatus → Text
declared_test_name no_test = txt "NoTest"
declared_test_name test_not_ran = txt "TestNotRan"
declared_test_name test_failed = txt "TestFailed"
declared_test_name test_passed = txt "TestPassed"

-- The first status of a list whose printed name is `t`.
find_status : Text → List ContainerStatus → Option ContainerStatus
find_status t [] = none
find_status t (s ∷ ss) = if same (status_string s) t then some s else find_status t ss

abbrev every_status : List ContainerStatus
every_status =
    not_ran ∷ created ∷ running ∷ killing ∷ killed ∷ finished ∷ memory_constraint_exceeded
    ∷ time_limit_exceeded ∷ provided_test_failed ∷ compilation_failed ∷ run_time_error
    ∷ non_deterministic_error ∷ []

find_status-status_string :
    (s : ContainerStatus) → find_status (status_string s) every_status ≡ some s
unfolding find_status container_status_string iota same
find_status-status_string not_ran = refl
find_status-status_string _ = refl

-- Every status prints as the name of its constant, both types of status, and two container
-- statuses that print alike are the same.
pub status_string_declared :
    ((s : ContainerStatus) → status_string s ≡ declared_name s)
    × ((s : ContainerTestStatus) → test_status_string s ≡ declared_test_name s)
    × ((s t : ContainerStatus) → status_string s ≡ status_string t → s ≡ t)
unfolding container_status_string container_test_status_string iota test_iota
status_string_declared = (names, test_names, distinct)
  where
    names : (s : ContainerStatus) → status_string s ≡ declared_name s
    names not_ran = refl
    names _ = refl

    test_names : (s : ContainerTestStatus) → test_status_string s ≡ declared_test_name s
    test_names no_test = refl
    test_names _ = refl

    distinct : (s t : ContainerStatus) → status_string s ≡ status_string t → s ≡ t
    distinct s t e = cc (
      ap (λ (u : Text). find_status u every_status) e,
      find_status-status_string s,
      find_status-status_string t,
    )
