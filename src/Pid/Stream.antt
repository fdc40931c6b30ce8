-- ===== src/Pid/Stream.antt =====
-- `StreamPid`: the samples of a process, until the process is done.
use cars.Base.{
  ℕ, ◌≡◌, ◌≢◌, refl, Bool, List, [], ◌∷◌, Text, same, same_iff, arith, Bool-cases, inl, inr,
  if◌then◌else◌,
}
use cars.Base.Int.{ℤ}
use cars.Base.Outcome.{Outcome, ok, err, panic, blocks, Fault}
use cars.Pid.{SysInfo, ReadFile}
use cars.Pid.Platform.{stat, get_stat, stat_type, stat_type_proc}

-- One round of the loop: the files as they are then, and whether its `select` takes the end of the
-- process, which it does not before the channel is closed.
pub record Round : Type 0 where
  pub read_file : Text → ReadFile
  pub takes_done : Bool

-- How the loop has come to be where it is.
pub data Ended : Type 0 where
  closed streaming : Ended
  stopped_by : Fault → Ended

-- The rest of a round, by what `GetStat` gives; a sample that cannot be read is left out.
abbrev send : Outcome SysInfo → Bool → List SysInfo × Ended → List SysInfo × Ended
send (ok state) done rest = if done then ([], closed) else (state ∷ rest.0, rest.1)
send (err e) done rest = if done then ([], closed) else rest
send (panic f) done rest = ([], stopped_by f)
send blocks done rest = ([], streaming)

-- `StreamPid`, for the rounds that it would make: the samples that are sent, and how it has ended.
unfoldable pub stream_pid : ℤ → Text → ℕ → List Round → List SysInfo × Ended
stream_pid page_size platform pid [] = ([], streaming)
stream_pid page_size platform pid (r ∷ rounds) =
    let rest = stream_pid page_size platform pid rounds in
    send (get_stat r.read_file page_size platform pid) r.takes_done rest

-- On a platform without /proc no sample is ever sent, so no limit of memory is noticed while a
-- program runs.
pub stream_pid-unsupported :
    (page_size : ℤ) (platform : Text) (pid : ℕ) (rounds : List Round)
    → stat_type platform ≢ stat_type_proc
    → (stream_pid page_size platform pid rounds).0 ≡ []
unfolding stream_pid get_stat stat
stream_pid-unsupported page_size platform pid [] h = refl
stream_pid-unsupported page_size platform pid (r ∷ rounds) h =
    elim (Bool-cases (same (stat_type platform) stat_type_proc)) [
      | inl supported ↦ absurd (h ((same_iff _ _).0 supported))
      | inr other ↦ ground (arith, other, stream_pid-unsupported page_size platform pid rounds h)
    ]
