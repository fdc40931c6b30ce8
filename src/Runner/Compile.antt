-- ===== src/Runner/Compile.antt =====
-- `compileProject`: the compile steps under a deadline.
pub mod Steps
pub mod Commands
use Prim.Native.Nat.{min}
use cars.Base.{
  ℕ, ◌+◌, ◌-◌, true, false, Option, none, some, List, [], ◌∷◌, Text, split, leb, if◌then◌else◌,
  length, ltb,
}
use cars.Base.Outcome.{Error, sentinel, deadline_exceeded}
use cars.Runner.{Machine, ExecutionParameters, CommandResult, parse_template_string}

-- The named results of `compileProject`, and the time at its return.
pub record Compiled : Type 0 where
  pub compiler_output : List Text
  pub compile_time_nano : ℕ
  pub compile_err : Option Error
  pub at : ℕ

abbrev output_or : List Text → Text → List Text
output_or old [] = old
output_or old (c ∷ s) = split b'\n' (c ∷ s)

-- The variables of the loop when it ends.
pub record LoopEnd : Type 0 where
  pub lines : List Text
  pub failure : Option Error
  pub time : ℕ

-- The loop over the steps; its variables are `compilerOutput`, `err` and the time.
unfoldable pub compile_steps_loop :
    Machine → ExecutionParameters → ℕ → List Text → List Text → Option Error → ℕ → LoopEnd
compile_steps_loop m params deadline [] out err now = record {
  lines = out;
  failure = err;
  time = now;
}
compile_steps_loop m params deadline (step ∷ steps) out err now =
    let (command, parse_err) = parse_template_string m step params in
    let result = m.run_combined (split b' ' command) now in
    let later = now + result.elapsed in
    let out' = output_or out result.combined_output in
    let rest = compile_steps_loop m params deadline steps out' result.cmd_err later in
    elim parse_err [
      | some e ↦ record { lines = out; failure = some e; time = now }
      | none ↦ elim (leb deadline later) [
        | true ↦ record { lines = out'; failure = some (sentinel deadline_exceeded); time = later }
        | false ↦ rest
      ]
    ]

-- The body of `compileProject` under its deadline.
compile_under : Machine → ExecutionParameters → ℕ → List Text → ℕ → Compiled
unfolding compile_steps_loop
compile_under m params deadline steps now =
    let result = compile_steps_loop m params deadline steps [] none now in
    if ltb 0 (length steps)
    then record {
      compiler_output = result.lines;
      compile_time_nano = result.time - now;
      compile_err = result.failure;
      at = result.time;
    }
    else record { compiler_output = []; compile_time_nano = 0; compile_err = none; at = now }

-- `compileProject`, called at `now` under a context that ends at `ctx`.
unfoldable pub compile_project : Machine → ℕ → ExecutionParameters → ℕ → Compiled
unfolding compile_under
compile_project m ctx params now =
    compile_under m params (min ctx (now + params.compile_timeout)) params.compile_steps now
