-- ===== src/Runner/Compile/Commands.antt =====
-- The compile phase of the runner starts no program: it runs commands and waits for them.
use Prim.Native.Nat.{min}
use cars.Base.{ℕ, ◌+◌, ◌≡◌, refl, List, [], ◌∷◌, Option, none, Text, arith}
use cars.Base.Outcome.{Error}
use cars.Runner.{Machine, ExecutionParameters, Started, parse_template_string}
use cars.Runner.Compile.{compile_steps_loop, compile_project}
use cars.Runner.Compile.Steps.{step_out, step_err, step_end}

module _ (m : Machine) (start' : List Text → ℕ → Started) (params : ExecutionParameters) where
  loop-start :
      (deadline : ℕ) (steps out : List Text) (err : Option Error) (now : ℕ)
      → compile_steps_loop (record m { start = start' }) params deadline steps out err now
        ≡ compile_steps_loop m params deadline steps out err now
  unfolding compile_steps_loop parse_template_string
  loop-start deadline [] out err now = refl
  loop-start deadline (step ∷ steps) out err now = ground (
    arith,
    loop-start deadline steps (step_out m params deadline step out now)
        (step_err m params deadline step now) (step_end m params deadline step now),
  )

  -- The compile phase does not depend on how programs are started.
  pub compile_project-start :
      (ctx now : ℕ)
      → compile_project (record m { start = start' }) ctx params now
        ≡ compile_project m ctx params now
  unfolding compile_project
  compile_project-start ctx now =
      ground (
        arith,
        loop-start (min ctx (now + params.compile_timeout)) params.compile_steps [] none now,
      )
