-- ===== src/Status.antt =====
-- internal/sandbox/sandbox.go and the generated containerstatus_string.go and
-- containerteststatus_string.go: the states of a container and of its test, and their names.
pub mod Names
use cars.Base.{
  ℕ, suc, ◌+◌, ◌-◌, ◌≡◌, Bool, true, false, ◌||◌, List, [], ◌∷◌, ◌++◌, Option, none, some, Text,
  txt, ltb, leb, if◌then◌else◌, take, drop, length,
}
use cars.Base.Int.{ℤ, pos, negsuc, int_lt}
use cars.Base.Decimal.{format_int}

pub data ContainerTestStatus : Type 0 where
  no_test test_not_ran test_failed test_passed : ContainerTestStatus

pub data ContainerStatus : Type 0 where
  not_ran created running killing killed finished : ContainerStatus
  memory_constraint_exceeded time_limit_exceeded provided_test_failed : ContainerStatus
  compilation_failed run_time_error non_deterministic_error : ContainerStatus

pub ContainerStatus-discrete : Discrete ContainerStatus
ContainerStatus-discrete = hlevel

-- The values that `iota` gives the constants.
unfoldable pub iota : ContainerStatus → ℕ
iota not_ran = 0
iota created = 1
iota running = 2
iota killing = 3
iota killed = 4
iota finished = 5
iota memory_constraint_exceeded = 6
iota time_limit_exceeded = 7
iota provided_test_failed = 8
iota compilation_failed = 9
iota run_time_error = 10
iota non_deterministic_error = 11

unfoldable pub test_iota : ContainerTestStatus → ℕ
test_iota no_test = 0
test_iota test_not_ran = 1
test_iota test_failed = 2
test_iota test_passed = 3

abbrev pub container_status_name : Text
container_status_name =
    txt
      "NotRanCreatedRunningKillingKilledFinishedMemoryConstraintExceededTimeLimitExceededProvidedTestFailedCompilationFailedRunTimeErrorNonDeterministicError"

abbrev pub container_status_index : List ℕ
container_status_index = 0 ∷ 6 ∷ 13 ∷ 20 ∷ 27 ∷ 33 ∷ 41 ∷ 65 ∷ 82 ∷ 100 ∷ 117 ∷ 129 ∷ 150 ∷ []

abbrev pub container_test_status_name : Text
container_test_status_name = txt "NoTestTestNotRanTestFailedTestPassed"

abbrev pub container_test_status_index : List ℕ
container_test_status_index = 0 ∷ 6 ∷ 16 ∷ 26 ∷ 36 ∷ []

-- The piece of the name table between the two entries of the index table.
name_at : Text → List ℕ → Option Text
name_at name (i ∷ j ∷ _) = some (take (j - i) (drop i name))
name_at name _ = none

-- `String` of a stringer type: the table's name for a constant, the number for any other value.
stringer : Text → Text → List ℕ → ℤ → Text
unfolding name_at
stringer type_name name index (negsuc n) =
    type_name ++ (txt "(" ++ (format_int (negsuc n) ++ txt ")"))
stringer type_name name index (pos i) =
    let unknown = type_name ++ (txt "(" ++ (format_int (pos i) ++ txt ")")) in
    if leb (length index - 1) i
    then unknown
    else elim (name_at name (drop i index)) [ none ↦ unknown | some t ↦ t ]

-- `ContainerStatus.String`, on the underlying `int`.
unfoldable pub container_status_string : ℤ → Text
unfolding stringer
container_status_string i =
    stringer (txt "ContainerStatus") container_status_name container_status_index i

-- `ContainerTestStatus.String`.
unfoldable pub container_test_status_string : ℤ → Text
unfolding stringer
container_test_status_string i =
    stringer (txt "ContainerTestStatus") container_test_status_name container_test_status_index i

abbrev pub status_string : ContainerStatus → Text
status_string s = container_status_string (pos (iota s))

abbrev pub test_status_string : ContainerTestStatus → Text
test_status_string s = container_test_status_string (pos (test_iota s))
