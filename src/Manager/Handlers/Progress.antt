-- ===== src/Manager/Handlers/Progress.antt =====
-- Every handler comes to an end, unless it waits for a slot or for its container.
use native.Mathlib.Decide.{dec_lt}
use cars.Base.{
  ℕ, ◌≤◌, ◌<◌, ◌≡◌, ◌≢◌, ◌⊎◌, inl, inr, refl, Option, none, some, Text, get_elem?, length, arith,
}
use cars.Base.Outcome.{Outcome, ok, err, panic, blocks, Error}
use cars.Sandbox.{System, Request, Container, closed_channel}
use cars.Sandbox.Execute.{run, new_sandbox_container}
use cars.Manager.{World, acquire, get_container}
use cars.Manager.Handlers.{
  Phase, arrived, entered, waiting, answered, timed_out, failed, stopped, hung, Net, advance,
  after_run,
}
use cars.Manager.Handlers.Consistent.{IsConsistent, Reachable}
use cars.Manager.Handlers.Answered.{Reachable-IsConsistent, waiting_answered}

-- How many steps a handler has before it, at most.
abbrev pub rank : Phase → ℕ
rank (arrived r) = 4
rank (entered r) = 3
rank (Phase.launched d) = 2
rank (waiting id) = 1
rank _ = 0

module _ {S : Type 0} (sys : System S) where
  after_run-rank :
      (w : World S) (x : Outcome (Option Error × Container) × S) → rank (after_run sys w x).0 < 3
  after_run-rank w (ok (none, d), s) = omega arith
  after_run-rank w (ok (some e, d), s) = omega arith
  after_run-rank w (err e, s) = omega arith
  after_run-rank w (panic f, s) = omega arith
  after_run-rank w (blocks, s) = omega arith

  -- A handler stays where it is.
  abbrev pub Stays : Net S → Phase → Type 0
  Stays n p = advance sys p n.world ≡ (p, n.world)

  -- What the next step of a handler does.
  abbrev pub Progress : ℕ → Net S → Phase → Type 0
  Progress max n p =
      ((r : Request) × (p ≡ arrived r) × (max ≤ length n.world.manager.limiter) × Stays n p)
      ⊎ ((id : Text) × (d : Container) × (p ≡ waiting id)
          × (get_container n.world.manager id ≡ some d)
          × (d.complete ≢ closed_channel)
          × Stays n p)
      ⊎ ((rank p ≡ 0) × Stays n p)
      ⊎ (rank (advance sys p n.world).0 < rank p)

  arrived-Progress :
      (max : ℕ) (n : Net S) (r : Request) → IsConsistent sys max n → Progress max n (arrived r)
  unfolding advance acquire
  arrived-Progress max n r v =
      elim (dec_lt (length n.world.manager.limiter) n.world.manager.max_concurrent_containers) [
        | yes free ↦ inr (inr (inr (ground arith)))
        | no full ↦ inl (r, refl, omega (arith, v.limit), ground arith)
      ]

  waiting-Progress :
      (max : ℕ) (n : Net S) (i : ℕ) (id : Text)
      → Reachable sys max n
      → get_elem? n.handlers i ≡ some (waiting id)
      → Progress max n (waiting id)
  waiting-Progress max n i id reachable e =
      let (d, known, next) = waiting_answered sys max n i id reachable e in
      elim next [
        | inl (unclosed, stays) ↦ inr (inl (id, d, refl, known, unclosed, stays))
        | inr (closed, response, _, answers) ↦ inr (inr (inr (rw answers (omega arith))))
      ]

  -- However the steps are interleaved, if Docker gives new containers new ids: the next step of a
  -- handler leaves it where it is only if it has arrived and every slot is taken, if it waits for a
  -- container whose channel is not closed, or if it is over or hangs in a call. Any other step of it
  -- brings it nearer to its end, which at most four such steps reach.
  pub advance_progress :
      (max : ℕ) (n : Net S) (i : ℕ) (p : Phase)
      → Reachable sys max n
      → get_elem? n.handlers i ≡ some p
      → (rank p ≤ 4) × Progress max n p
  unfolding advance
  advance_progress max n i (arrived r) reachable e =
      (omega arith, arrived-Progress max n r (Reachable-IsConsistent sys max n reachable))
  advance_progress max n i (entered r) reachable e = (
    omega arith,
    inr (inr (inr (after_run-rank n.world (run sys (new_sandbox_container r) n.world.machine)))),
  )
  advance_progress max n i (Phase.launched d) reachable e =
      (omega arith, inr (inr (inr (omega arith))))
  advance_progress max n i (waiting id) reachable e =
      (omega arith, waiting-Progress max n i id reachable e)
  advance_progress max n i (answered r) reachable e = (omega arith, inr (inr (inl (refl, refl))))
  advance_progress max n i (timed_out id) reachable e = (omega arith, inr (inr (inl (refl, refl))))
  advance_progress max n i (failed f) reachable e = (omega arith, inr (inr (inl (refl, refl))))
  advance_progress max n i (stopped f) reachable e = (omega arith, inr (inr (inl (refl, refl))))
  advance_progress max n i hung reachable e = (omega arith, inr (inr (inl (refl, refl))))
