-- ===== src/Runner/Compile/Steps.antt =====
-- Which error the compile phase reports, and when it is over.
use Prim.Native.Nat.{min}
use cars.Base.{
  ℕ, ◌+◌, ◌-◌, ◌≤◌, ◌<◌, ◌≡◌, ◌≢◌, ◌⊎◌, inl, inr, refl, some, Option-cases, Option, none, List, [],
  ◌∷◌, Text, split, arith,
}
use cars.Base.Outcome.{Error}
use cars.Runner.{Machine, ExecutionParameters, parse_template_string}
use cars.Runner.Compile.{compile_under, compile_steps_loop, compile_project, output_or}

module _ (m : Machine) (params : ExecutionParameters) (deadline : ℕ) where
  -- The result of one step's command, run at `now`.
  abbrev pub step_end : Text → ℕ → ℕ
  step_end step now =
      now + (m.run_combined (split b' ' (parse_template_string m step params).0) now).elapsed

  abbrev pub step_err : Text → ℕ → Option Error
  step_err step now =
      (m.run_combined (split b' ' (parse_template_string m step params).0) now).cmd_err

  abbrev pub step_out : Text → List Text → ℕ → List Text
  step_out step out now =
      output_or out
        (m.run_combined (split b' ' (parse_template_string m step params).0) now).combined_output

  -- Every step renders, and its command is over before the deadline.
  abbrev pub Completes : List Text → ℕ → Type 0
  Completes [] now = Unit
  Completes (step ∷ steps) now =
      ((parse_template_string m step params).1 ≡ none)
      × (step_end step now < deadline)
      × Completes steps (step_end step now)

  -- The error of the last of the commands.
  abbrev pub last_err : Option Error → List Text → ℕ → Option Error
  last_err err [] now = err
  last_err err (step ∷ steps) now = last_err (step_err step now) steps (step_end step now)

  -- A step does not render, or its command is not over before the deadline, or the last command
  -- ends in an error, where `err` is the error of the command before the steps.
  abbrev pub Fails : Option Error → List Text → ℕ → Type 0
  Fails err [] now = err ≢ none
  Fails err (step ∷ steps) now =
      ((parse_template_string m step params).1 ≢ none)
      ⊎ (deadline ≤ step_end step now)
      ⊎ Fails (step_err step now) steps (step_end step now)

  pub loop-Fails :
      (steps : List Text) (out : List Text) (err : Option Error) (now : ℕ)
      → Fails err steps now
      → (compile_steps_loop m params deadline steps out err now).failure ≢ none
  unfolding compile_steps_loop
  loop-Fails [] out err now h = h
  loop-Fails (step ∷ steps) out err now h =
      let rest = loop-Fails steps (step_out step out now) (step_err step now) (step_end step now) in
      elim h [
        | inl unrendered ↦ ground arith
        | inr (inl late) ↦ ground arith
        | inr (inr fails) ↦ ground (arith, rest fails)
      ]

  pub loop_last :
      (steps : List Text) (out : List Text) (err : Option Error) (now : ℕ)
      → Completes steps now
      → (compile_steps_loop m params deadline steps out err now).failure ≡ last_err err steps now
  unfolding compile_steps_loop
  loop_last [] out err now c = refl
  loop_last (step ∷ steps) out err now c =
      ground
        (arith, loop_last steps (step_out step out now) (step_err step now) (step_end step now) c.2)

  pub loop_time :
      (steps : List Text) (out : List Text) (err : Option Error) (now : ℕ)
      → now ≤ (compile_steps_loop m params deadline steps out err now).time
  unfolding compile_steps_loop
  loop_time [] out err now = omega arith
  loop_time (step ∷ steps) out err now =
      ground
        (arith, loop_time steps (step_out step out now) (step_err step now) (step_end step now))

  -- Without an error, the loop is over before the deadline, or has made no step.
  pub loop_in_time :
      (steps : List Text) (out : List Text) (err : Option Error) (now : ℕ)
      → (compile_steps_loop m params deadline steps out err now).failure ≡ none
      → (steps ≡ []) ⊎ ((compile_steps_loop m params deadline steps out err now).time < deadline)
  unfolding compile_steps_loop
  loop_in_time [] out err now h = inl refl
  loop_in_time (step ∷ []) out err now h = ground arith
  loop_in_time (step ∷ next ∷ steps) out err now h = ground (
    arith,
    loop_in_time (next ∷ steps) (step_out step out now) (step_err step now) (step_end step now),
  )

compile_under-Fails :
    (m : Machine) (params : ExecutionParameters) (deadline : ℕ) (steps : List Text) (now : ℕ)
    → Fails m params deadline none steps now
    → (compile_under m params deadline steps now).compile_err ≢ none
unfolding compile_under
compile_under-Fails m params deadline [] now h = h
compile_under-Fails m params deadline (step ∷ steps) now h =
    ground (arith, loop-Fails m params deadline (step ∷ steps) [] none now h)

-- A compile phase in which a step fails reports an error.
pub compile_err-Fails :
    (m : Machine) (ctx : ℕ) (params : ExecutionParameters) (now : ℕ)
    → Fails m params (min ctx (now + params.compile_timeout)) none params.compile_steps now
    → (compile_project m ctx params now).compile_err ≢ none
unfolding compile_project
compile_err-Fails m ctx params now =
    compile_under-Fails m params (min ctx (now + params.compile_timeout)) params.compile_steps now

compile_under-last :
    (m : Machine) (params : ExecutionParameters) (deadline : ℕ) (steps : List Text) (now : ℕ)
    → Completes m params deadline steps now
    → (compile_under m params deadline steps now).compile_err
      ≡ last_err m params deadline none steps now
unfolding compile_under
compile_under-last m params deadline [] now c = refl
compile_under-last m params deadline (step ∷ steps) now c =
    ground (arith, loop_last m params deadline (step ∷ steps) [] none now c)

-- If every step renders and every command is over before the deadline, then all commands are run
-- and the compile phase reports the error of the last command alone, whatever the commands before
-- it ended in.
pub compile_err_last :
    (m : Machine) (ctx : ℕ) (params : ExecutionParameters) (now : ℕ)
    → Completes m params (min ctx (now + params.compile_timeout)) params.compile_steps now
    → (compile_project m ctx params now).compile_err
      ≡ last_err m params (min ctx (now + params.compile_timeout)) none params.compile_steps now
unfolding compile_project
compile_err_last m ctx params now =
    compile_under-last m params (min ctx (now + params.compile_timeout)) params.compile_steps now

compile_under-cons :
    (m : Machine) (params : ExecutionParameters) (deadline : ℕ) (step : Text) (steps : List Text)
    (now : ℕ)
    → let end = compile_steps_loop m params deadline (step ∷ steps) [] none now in
      compile_under m params deadline (step ∷ steps) now ≡ record {
        compiler_output = end.lines;
        compile_time_nano = end.time - now;
        compile_err = end.failure;
        at = end.time;
      }
unfolding compile_under
compile_under-cons m params deadline step steps now = ground arith

compile_under_time :
    (m : Machine) (params : ExecutionParameters) (deadline : ℕ) (steps : List Text) (now : ℕ)
    → let compiled = compile_under m params deadline steps now in
      (compiled.at ≡ now + compiled.compile_time_nano)
      × (compiled.compile_err ≡ none → (steps ≡ []) ⊎ (compiled.at < deadline))
unfolding compile_under
compile_under_time m params deadline [] now = (omega arith, λ _. inl refl)
compile_under_time m params deadline (step ∷ steps) now =
    rw (compile_under-cons m params deadline step steps now) (
      omega (arith, loop_time m params deadline (step ∷ steps) [] none now),
      loop_in_time m params deadline (step ∷ steps) [] none now,
    )

-- The compile phase does not go back in time; without an error it ends before its own deadline and
-- the caller's, unless there was nothing to compile.
pub compile_project_time :
    (m : Machine) (ctx : ℕ) (params : ExecutionParameters) (now : ℕ)
    → let compiled = compile_project m ctx params now in
      (compiled.at ≡ now + compiled.compile_time_nano)
      × (((e : Error) × (compiled.compile_err ≡ some e))
          ⊎ (params.compile_steps ≡ [])
          ⊎ ((compiled.at < ctx) × (compiled.compile_time_nano < params.compile_timeout)))
unfolding compile_project
compile_project_time m ctx params now =
    let deadline = min ctx (now + params.compile_timeout) in
    let compiled = compile_under m params deadline params.compile_steps now in
    let facts = compile_under_time m params deadline params.compile_steps now in
    (
      facts.0,
      elim (Option-cases compiled.compile_err) [
        | inr failed ↦ inl failed
        | inl clean ↦ elim (facts.1 clean) [
          | inl e ↦ inr (inl e)
          | inr lt ↦ inr (inr (omega (arith, facts.0), omega (arith, facts.0)))
        ]
      ],
    )
