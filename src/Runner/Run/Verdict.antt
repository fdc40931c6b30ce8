-- ===== src/Runner/Run/Verdict.antt =====
-- The memory verdict of `runProject`, and what a run within the limit gives.
use Prim.Native.Nat.{min}
use cars.Base.{
  ℕ, ◌+◌, ◌≡◌, ◌↔◌, ◌∙◌, inl, inr, refl, true, false, none, some, List, Text, split, leb, take,
  if◌then◌else◌, arith,
}
use cars.Base.Int.{int_lt}
use cars.Base.Outcome.{sentinel, limit_exceeded, deadline_exceeded}
use cars.Memory.{Memory, one_byte}
use cars.Runner.{Machine, ExecutionParameters, Process, started, parse_template_string}
use cars.Runner.Output.{scan_lines, collect_lines_lem, max_lines}
use cars.Runner.Watch.{watch, peak, larger, watch_cases, larger-int_lt}
use cars.Runner.Run.{run_project, run_started, finish_run, final_memory}

-- The most memory that is known of the program: by the samples, and by the system in the end.
abbrev pub used_memory : Process → Memory
used_memory p = larger (peak p.samples one_byte) (final_memory p.max_rss)

finish_run-over :
    (limit : Memory) (deadline now : ℕ) (p : Process)
    → ((finish_run limit deadline now p (watch limit p.samples one_byte)).run_err
        ≡ some (sentinel limit_exceeded))
      ↔ (int_lt limit (used_memory p) ≡ true)
unfolding finish_run
finish_run-over limit deadline now p = elim (watch_cases limit p.samples one_byte) [
  | inl e ↦ rw (e, finish_run) (ground arith)
  | inr (at, x, e, over, top) ↦ rw (e, finish_run) (λ _. larger-int_lt limit _ _ top, λ _. refl)
]

-- The run command of the parameters, split into words.
abbrev pub run_words : Machine → ExecutionParameters → List Text
run_words m params = split b' ' (parse_template_string m params.run params).0

run_project-started :
    (m : Machine) (ctx : ℕ) (params : ExecutionParameters) (now : ℕ) (p : Process)
    → (parse_template_string m params.run params).1 ≡ none
    → m.start (run_words m params) now ≡ started p
    → run_project m ctx params now
      ≡ finish_run params.execution_memory
          (min ctx (now + params.run_timeout))
          now
          p
          (watch params.execution_memory p.samples one_byte)
unfolding run_project run_started
run_project-started m ctx params now p e s = rw (e, run_project) (rw (s, run_started))

-- When the run command renders and the program has started, the run reports the memory error
-- exactly if the memory known of the program is over the limit, also when a deadline has passed.
pub run_memory_verdict :
    (m : Machine) (ctx : ℕ) (params : ExecutionParameters) (now : ℕ) (p : Process)
    → (parse_template_string m params.run params).1 ≡ none
    → m.start (run_words m params) now ≡ started p
    → ((run_project m ctx params now).run_err ≡ some (sentinel limit_exceeded))
      ↔ (int_lt params.execution_memory (used_memory p) ≡ true)
run_memory_verdict m ctx params now p e s =
    rw (run_project-started m ctx params now p e s)
      (finish_run-over params.execution_memory _ now p)

finish_run-under :
    (limit : Memory) (deadline now : ℕ) (p : Process)
    → int_lt limit (used_memory p) ≡ false
    → finish_run limit deadline now p (watch limit p.samples one_byte) ≡ record {
      execution = some (record {
        standard_output = take max_lines (scan_lines p.stdout);
        error_output = take max_lines (scan_lines p.stderr);
        runtime_nano = p.duration;
        memory_consumption = used_memory p;
      });
      run_err = if leb deadline (now + p.duration) then some (sentinel deadline_exceeded) else none;
      at = now + p.duration;
    }
unfolding finish_run
finish_run-under limit deadline now p under = elim (watch_cases limit p.samples one_byte) [
  | inl e ↦
      rw (e, finish_run)
        (rw (
          ← collect_lines_lem (scan_lines p.stdout),
          ← collect_lines_lem (scan_lines p.stderr),
          under,
        ))
  | inr (at, x, e, over, top) ↦
      absurd (cc (larger-int_lt limit (peak p.samples one_byte) (final_memory p.max_rss) top))
]

-- When the run command renders, the program has started and the memory known of it is within the
-- limit, the run takes as long as the program, returns that amount of memory and the first thousand
-- lines of each stream, and reports the deadline if the program ends at or after it, and nothing
-- else: the error that the program's wait ended in is not looked at.
pub run_within_limit :
    (m : Machine) (ctx : ℕ) (params : ExecutionParameters) (now : ℕ) (p : Process)
    → (parse_template_string m params.run params).1 ≡ none
    → m.start (run_words m params) now ≡ started p
    → int_lt params.execution_memory (used_memory p) ≡ false
    → run_project m ctx params now ≡ record {
      execution = some (record {
        standard_output = take max_lines (scan_lines p.stdout);
        error_output = take max_lines (scan_lines p.stderr);
        runtime_nano = p.duration;
        memory_consumption = used_memory p;
      });
      run_err =
          if leb (min ctx (now + params.run_timeout)) (now + p.duration)
          then some (sentinel deadline_exceeded)
          else none;
      at = now + p.duration;
    }
run_within_limit m ctx params now p e s under =
    run_project-started m ctx params now p e s
    ∙ finish_run-under params.execution_memory (min ctx (now + params.run_timeout)) now p under
