-- ===== src/Runner/Main/Exit.antt =====
-- The exit of the program is not part of the verdict.
use Prim.Native.Nat.{min}
use cars.Base.{ℕ, ◌+◌, ◌≡◌, refl, none, arith, inl, inr, Option-cases}
use cars.Memory.{Memory}
use cars.Runner.{Machine, ExecutionParameters, Started, started, not_started, parse_template_string}
use cars.Runner.Compile.Commands.{compile_project-start}
use cars.Runner.Run.{run_project, run_started}
use cars.Runner.Run.Verdict.{run_words}
use cars.Runner.Main.{handle_request, compiled_of, main, total_time}

-- The machine on which no program's wait ends in an error.
abbrev pub forget_wait_err : Started → Started
forget_wait_err (not_started elapsed e) = not_started elapsed e
forget_wait_err (started p) = started (record p { wait_err = none })

abbrev pub ignoring_wait : Machine → Machine
ignoring_wait m = record m { start = λ words now. forget_wait_err (m.start words now) }

run_started-wait :
    (limit : Memory) (deadline now : ℕ) (s : Started)
    → run_started limit deadline now (forget_wait_err s) ≡ run_started limit deadline now s
unfolding run_started
run_started-wait limit deadline now (not_started elapsed e) = refl
run_started-wait limit deadline now (started p) = ground arith

run_project-wait :
    (m : Machine) (ctx : ℕ) (params : ExecutionParameters) (now : ℕ)
    → run_project (ignoring_wait m) ctx params now ≡ run_project m ctx params now
unfolding run_project parse_template_string
run_project-wait m ctx params now = ground (
  arith,
  run_started-wait params.execution_memory (min ctx (now + params.run_timeout)) now
      (m.start (run_words m params) now),
)

handle_request-wait :
    (m : Machine) (params : ExecutionParameters) (now : ℕ)
    → handle_request (ignoring_wait m) params now ≡ handle_request m params now
unfolding handle_request
handle_request-wait m params now = rw (
  compile_project-start m (ignoring_wait m).start params (now + total_time) now,
  run_project-wait m (now + total_time) params (compiled_of m params now).at,
)

-- What the runner writes does not depend on how the program exits: with every error of `Wait`, such
-- as an exit status other than 0 or a fatal signal, replaced by none, the response is the same.
pub main_ignores_exit : (m : Machine) (now : ℕ) → main (ignoring_wait m) now ≡ main m now
unfolding main
main_ignores_exit m now = elim (Option-cases m.runner_json) [
  | inl missing ↦ ground arith
  | inr (params, read) ↦ ground (arith, handle_request-wait m params now)
]
