-- ===== src/Runner/Run.antt =====
-- `runProject`: the run of the program under a deadline and a memory limit.
pub mod Verdict
use Prim.Native.Nat.{min}
use cars.Base.{
  ℕ, ◌+◌, ◌*◌, true, false, Option, none, some, List, [], Text, split, leb, if◌then◌else◌,
}
use cars.Base.Int.{ℤ, pos, int_lt, int64, ◌*ℤ◌}
use cars.Base.Outcome.{Error, sentinel, limit_exceeded, deadline_exceeded}
use cars.Memory.{Memory, one_byte}
use cars.Runner.{
  Machine, ExecutionParameters, Process, Started, not_started, started, parse_template_string,
}
use cars.Runner.Output.{scan_lines, collect_lines}
use cars.Runner.Watch.{Watched, exceeded, watched, watch}

-- `RunExecution`.
pub record RunExecution : Type 0 where
  pub standard_output : List Text
  pub error_output : List Text
  pub runtime_nano : ℕ
  pub memory_consumption : Memory

-- The two results of `runProject`, where no execution is the nil pointer, and the time at its
-- return.
pub record Ran : Type 0 where
  pub execution : Option RunExecution
  pub run_err : Option Error
  pub at : ℕ

abbrev pub quiet : ℕ → Memory → RunExecution
quiet time memory = record {
  standard_output = [];
  error_output = [];
  runtime_nano = time;
  memory_consumption = memory;
}

-- `finalProcessMaxMemory`.
abbrev pub final_memory : Option ℤ → Memory
final_memory none = one_byte
final_memory (some max_rss) = int64 (max_rss *ℤ pos 1024)

abbrev deadline_error : ℕ → ℕ → Option Error
deadline_error deadline now = if leb deadline now then some (sentinel deadline_exceeded) else none

-- From the end of the watch on.
unfoldable pub finish_run : Memory → ℕ → ℕ → Process → Watched → Ran
finish_run limit deadline now p (exceeded at memory) = record {
  execution = some (quiet at memory);
  run_err = some (sentinel limit_exceeded);
  at = now + at;
}
finish_run limit deadline now p (watched consumption) =
    let final = final_memory p.max_rss in
    let memory = if int_lt consumption final then final else consumption in
    if int_lt limit memory
    then record {
      execution = some (quiet p.duration memory);
      run_err = some (sentinel limit_exceeded);
      at = now + p.duration;
    }
    else record {
      execution = some (record {
        standard_output = collect_lines 0 (scan_lines p.stdout);
        error_output = collect_lines 0 (scan_lines p.stderr);
        runtime_nano = p.duration;
        memory_consumption = memory;
      });
      run_err = deadline_error deadline (now + p.duration);
      at = now + p.duration;
    }

-- From `cmd.Start` on.
unfoldable pub run_started : Memory → ℕ → ℕ → Started → Ran
unfolding finish_run
run_started limit deadline now (not_started elapsed e) = record {
  execution = some (quiet elapsed one_byte);
  run_err = some e;
  at = now + elapsed;
}
run_started limit deadline now (started p) =
    finish_run limit deadline now p (watch limit p.samples one_byte)

-- `runProject`, called at `now` under a context that ends at `ctx`.
unfoldable pub run_project : Machine → ℕ → ExecutionParameters → ℕ → Ran
unfolding run_started
run_project m ctx params now =
    let (command, parse_err) = parse_template_string m params.run params in
    let deadline = min ctx (now + params.run_timeout) in
    elim parse_err [
      | some e ↦ record { execution = none; run_err = some e; at = now }
      | none ↦ run_started params.execution_memory deadline now (m.start (split b' ' command) now)
    ]
