-- ===== src/Profile/Selection.antt =====
-- The profile that a process gets, and that it keeps.
use cars.Base.{ℕ, ◌≡◌, ◌⊎◌, inl, inr, ◌&&◌, not, some, Text, txt, same, arith, if◌then◌else◌}
use cars.Base.Map.{lookup, insert}
use cars.Base.Outcome.{ok}
use cars.Profile.{
  Profile, profile, gvisor, default_runtime, Host, start, read_environment, read_daemon,
  get_profile_for_machine,
}

-- The three environments.
environment_cases :
    (value : Text)
    → (read_environment value ≡ txt "development")
      ⊎ (read_environment value ≡ txt "staging")
      ⊎ (read_environment value ≡ txt "production")
unfolding read_environment
environment_cases value = ground arith

-- Seconds of run time and of compile time by environment.
abbrev pub code_seconds : Text → ℕ
code_seconds env =
    if same env (txt "production") then 1 else if same env (txt "staging") then 2 else 5

abbrev pub compile_seconds : Text → ℕ
compile_seconds env = if same env (txt "production") then 10 else 20

-- gVisor is used where it is installed, but for development on Windows.
abbrev pub chosen_runtime : Host → Text
chosen_runtime h =
    if read_daemon h.daemon_file
      && not (same (read_environment h.environment) (txt "development") && h.is_windows)
    then gvisor
    else default_runtime

abbrev pub chosen : Host → Profile
chosen h =
    profile (chosen_runtime h) (code_seconds (read_environment h.environment))
      (compile_seconds (read_environment h.environment))

-- The first call in a process gives the profile of its environment and system, and every later call
-- on the same system gives the same profile and changes nothing, whatever the environment variable
-- and the daemon's configuration have become.
pub get_profile_for_machine-chosen :
    (h later : Host)
    → h.is_windows ≡ later.is_windows
    → let (result, g) = get_profile_for_machine h start in
      (result ≡ ok (some (chosen h)))
      × (get_profile_for_machine later g ≡ (ok (some (chosen h)), g))
unfolding get_profile_for_machine lookup insert same
get_profile_for_machine-chosen h later os = elim (environment_cases h.environment) [
  | inl e ↦ rw e (ground arith)
  | inr (inl e) ↦ rw e (ground arith)
  | inr (inr e) ↦ rw e (ground arith)
]
