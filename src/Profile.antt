-- ===== src/Profile.antt =====
-- internal/config/config.go, internal/docker/daemon.go and internal/sandbox/profile.go: the
-- execution profile that a process runs its requests under. The package variables and the three
-- `sync.Once` are the fields of `Globals`; what the process reads from its surroundings is `Host`.
pub mod Selection
use cars.Base.{
  ℕ, ◌*◌, Bool, true, false, ◌||◌, not, Option, none, some, List, [], ◌∷◌, ◌++◌, Text, txt, same,
  contains, if◌then◌else◌,
}
use cars.Base.Map.{lookup, insert}
use cars.Base.Outcome.{Outcome, ok, panic, nil_dereference}
use cars.Base.Int.{ℤ, pos}
use cars.Memory.{Memory, gigabyte}
use cars.Runner.{second}

-- `Profile`, with `Runtime` as its text.
pub record Profile : Type 0 where
  pub runtime : Text
  pub auto_remove : Bool
  pub code_timeout : ℕ
  pub compile_timeout : ℕ
  pub container_memory : Memory
  pub execution_memory : Memory
  pub memory_swap : Memory

abbrev pub default_runtime : Text
default_runtime = []

abbrev pub gvisor : Text
gvisor = txt "runsc"

abbrev pub profile : Text → ℕ → ℕ → Profile
profile runtime code compile = record {
  runtime = runtime;
  auto_remove = true;
  code_timeout = second * code;
  compile_timeout = second * compile;
  container_memory = pos (gigabyte * 2);
  execution_memory = pos gigabyte;
  memory_swap = pos 0;
}

-- The map `profiles` as the program starts.
abbrev pub profiles : List (Text × Profile)
profiles =
    (txt "development_linux", profile gvisor 5 20)
    ∷ (txt "development_windows", profile default_runtime 5 20)
    ∷ (txt "production", profile gvisor 1 10)
    ∷ (txt "staging", profile gvisor 2 20)
    ∷ []

-- What reading /etc/docker/daemon.json gives: the names under `runtimes`, if it can be read.
pub data DaemonFile : Type 0 where
  missing_file unreadable_file : DaemonFile
  runtimes : List Text → DaemonFile

-- The variable `environment`, whether `runtime.GOOS` is "windows" under `strings.EqualFold`, and
-- the configuration of the Docker daemon.
pub record Host : Type 0 where
  pub environment : Text
  pub is_windows : Bool
  pub daemon_file : DaemonFile

pub record Globals : Type 0 where
  pub env_once : Bool
  pub current_environment : Text
  pub docker_once : Bool
  pub installed : Bool
  pub gvisor_once : Bool
  pub profile_map : List (Text × Profile)

abbrev pub start : Globals
start = record {
  env_once = false;
  current_environment = [];
  docker_once = false;
  installed = false;
  gvisor_once = false;
  profile_map = profiles;
}

abbrev pub default_environment : Text
default_environment = txt "development"

-- The body of `envOnce.Do`.
unfoldable pub read_environment : Text → Text
read_environment value =
    if same value []
    then default_environment
    else if same value (txt "staging")
    then txt "staging"
    else if same value (txt "production")
    then txt "production"
    else if same value (txt "development")
    then txt "development"
    else default_environment

-- `GetCurrentEnvironment`.
unfoldable pub get_current_environment : Host → Globals → Text × Globals
get_current_environment h g = if g.env_once then (g.current_environment, g) else (
  read_environment h.environment,
  record g { env_once = true; current_environment = read_environment h.environment },
)

-- `GetCurrentOs`.
unfoldable pub get_current_os : Host → Text
get_current_os h = if h.is_windows then txt "windows" else txt "linux"

-- The body of the `once.Do` of `IsGvisorInstalled`.
unfoldable pub read_daemon : DaemonFile → Bool
read_daemon missing_file = false
read_daemon unreadable_file = false
read_daemon (runtimes names) = contains gvisor names

-- `IsGvisorInstalled`.
unfoldable pub is_gvisor_installed : Host → Globals → Bool × Globals
is_gvisor_installed h g = if g.docker_once then (g.installed, g) else (
  read_daemon h.daemon_file,
  record g { docker_once = true; installed = read_daemon h.daemon_file },
)

-- `profile.Runtime = Default` through the pointer, which changes the entry of the map.
reset_runtime : Text → Option Profile → Globals → Outcome (Option Profile) × Globals
reset_runtime key none g = (panic nil_dereference, g)
reset_runtime key (some p) g =
    let p' = record p { runtime = default_runtime } in
    (ok (some p'), record g { profile_map = insert key p' g.profile_map })

-- `disableGVisorCheckWrapper`, on the entry at `key`; `none` is the nil pointer.
disable_gvisor_check_wrapper :
    Host → Text → Option Profile → Globals → Outcome (Option Profile) × Globals
unfolding reset_runtime is_gvisor_installed
disable_gvisor_check_wrapper h key p g =
    let (here, g') = is_gvisor_installed h (record g { gvisor_once = true }) in
    if g.gvisor_once then (ok p, g) else if here then (ok p, g') else reset_runtime key p g'

-- The choice of the entry, by which of the two names exist.
choose :
    Host
    → Text
    → Text
    → Option Profile
    → Option Profile
    → Globals
    → Outcome (Option Profile) × Globals
unfolding disable_gvisor_check_wrapper
choose h env env_os none none g =
    disable_gvisor_check_wrapper h default_environment (lookup default_environment g.profile_map) g
choose h env env_os p (some q) g = disable_gvisor_check_wrapper h env_os (some q) g
choose h env env_os (some p) none g = disable_gvisor_check_wrapper h env (some p) g

-- `GetProfileForMachine`.
unfoldable pub get_profile_for_machine : Host → Globals → Outcome (Option Profile) × Globals
unfolding choose get_current_environment get_current_os
get_profile_for_machine h g =
    let (env, g') = get_current_environment h g in
    let env_os = env ++ (txt "_" ++ get_current_os h) in
    choose h env env_os (lookup env g'.profile_map) (lookup env_os g'.profile_map) g'
