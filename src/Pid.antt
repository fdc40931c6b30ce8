-- ===== src/Pid.antt =====
-- internal/pid/pid.go: the memory of a process, read from /proc/<pid>/stat.
pub mod Sample
pub mod Platform
pub mod Stream
use cars.Base.{
  ℕ, ◌+◌, Bool, true, false, Option, none, some, List, [], ◌∷◌, ◌++◌, Text, txt, split, length, ltb,
  get_elem?, if◌then◌else◌, same,
}
use cars.Base.Decimal.{format_nat, parse_int_value}
use cars.Base.Int.{ℤ, pos, int64, ◌*ℤ◌}
use cars.Base.Outcome.{Outcome, ok, err, panic, blocks, Error, external, index_out_of_range}
use cars.Base.Paths.{join_path}
use cars.Memory.{Memory}

-- `SysInfo`.
pub record SysInfo : Type 0 where
  pub cpu : ℤ
  pub memory : Memory

-- `ProcPidStatistics`, with `ProcPidState` as its text.
pub record ProcPidStatistics : Type 0 where
  pub pid : ℤ
  pub comm : Text
  pub state : Text
  pub ppid : ℤ
  pub pgrp : ℤ
  pub session : ℤ
  pub tty_nr : ℤ
  pub tpgid : ℤ
  pub flags : ℤ
  pub minflt : ℤ
  pub cminflt : ℤ
  pub majflt : ℤ
  pub cmajflt : ℤ
  pub utime : ℤ
  pub stime : ℤ
  pub cutime : ℤ
  pub cstime : ℤ
  pub priority : ℤ
  pub nice : ℤ
  pub num_threads : ℤ
  pub itrealvalue : ℤ
  pub starttime : ℤ
  pub vsize : ℤ
  pub rss : ℤ
  pub rsslim : ℤ
  pub startcode : ℤ
  pub endcode : ℤ
  pub startstack : ℤ
  pub kstkesp : ℤ
  pub kstkeip : ℤ
  pub signal : ℤ
  pub blocked : ℤ
  pub sigignore : ℤ
  pub sigcatch : ℤ
  pub wchan : ℤ
  pub nswap : ℤ
  pub cnswap : ℤ
  pub exit_signal : ℤ
  pub processor : ℤ
  pub rt_priority : ℤ
  pub policy : ℤ
  pub delayacct_blkio_ticks : ℤ
  pub guest_time : ℤ
  pub cguest_time : ℤ
  pub start_data : ℤ
  pub end_data : ℤ
  pub start_brk : ℤ
  pub arg_start : ℤ
  pub arg_end : ℤ
  pub env_start : ℤ
  pub env_end : ℤ
  pub exit_code : ℤ

-- The element of a slice that is long enough.
abbrev or_empty : Option Text → Text
or_empty none = []
or_empty (some t) = t

abbrev pub field : List Text → ℕ → Text
field infos i = or_empty (get_elem? infos i)

-- `parseInt64` of a field.
abbrev pub number : List Text → ℕ → ℤ
number infos i = parse_int_value (field infos i)

abbrev pub pid_statistics : List Text → ProcPidStatistics
pid_statistics infos = record {
  pid = number infos 0;
  comm = field infos 1;
  state = field infos 2;
  ppid = number infos 3;
  pgrp = number infos 4;
  session = number infos 5;
  tty_nr = number infos 6;
  tpgid = number infos 7;
  flags = number infos 8;
  minflt = number infos 9;
  cminflt = number infos 10;
  majflt = number infos 11;
  cmajflt = number infos 12;
  utime = number infos 13;
  stime = number infos 14;
  cutime = number infos 15;
  cstime = number infos 16;
  priority = number infos 17;
  nice = number infos 18;
  num_threads = number infos 19;
  itrealvalue = number infos 20;
  starttime = number infos 21;
  vsize = number infos 22;
  rss = number infos 23;
  rsslim = number infos 24;
  startcode = number infos 25;
  endcode = number infos 26;
  startstack = number infos 27;
  kstkesp = number infos 28;
  kstkeip = number infos 29;
  signal = number infos 30;
  blocked = number infos 31;
  sigignore = number infos 32;
  sigcatch = number infos 33;
  wchan = number infos 34;
  nswap = number infos 35;
  cnswap = number infos 36;
  exit_signal = number infos 37;
  processor = number infos 38;
  rt_priority = number infos 39;
  policy = number infos 40;
  delayacct_blkio_ticks = number infos 41;
  guest_time = number infos 42;
  cguest_time = number infos 43;
  start_data = number infos 44;
  end_data = number infos 45;
  start_brk = number infos 46;
  arg_start = number infos 47;
  arg_end = number infos 48;
  env_start = number infos 49;
  env_end = number infos 50;
  exit_code = number infos 51;
}

-- The use of the file's text in `statFromProc`. The largest index that it reads is 51.
unfoldable pub sample_of : ℤ → Text → Outcome SysInfo
sample_of page_size stat =
    let infos = split b' ' stat in
    if ltb (length infos) 52
    then panic index_out_of_range
    else ok (record { cpu = pos 0; memory = int64 ((pid_statistics infos).rss *ℤ page_size) })

-- Reading a file of /proc: its text or an error.
pub data ReadFile : Type 0 where
  read : Text → ReadFile
  not_read : Error → ReadFile

abbrev sample_read : ℤ → ReadFile → Outcome SysInfo
sample_read page_size (not_read e) = err e
sample_read page_size (read stat) = sample_of page_size stat

-- `statFromProc`.
unfoldable pub stat_from_proc : (Text → ReadFile) → ℤ → ℕ → Outcome SysInfo
unfolding sample_of
stat_from_proc read_file page_size pid =
    sample_read page_size (read_file (join_path (txt "/proc" ∷ format_nat pid ∷ txt "stat" ∷ [])))
