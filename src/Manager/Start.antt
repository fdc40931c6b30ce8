-- ===== src/Manager/Start.antt =====
-- `ContainerManager.Start`: the loop over the event stream of Docker.
use cars.Base.{◌≡◌, ◌≢◌, ◌⊎◌, inl, inr, refl, Bool, true, false, Option, List, [], ◌∷◌, arith, map}
use cars.Base.Outcome.{Outcome, ok, err, panic, blocks, Error, Fault}
use cars.Sandbox.{System, Message}
use cars.Manager.{World, handle_message, stop}

-- What one round of the loop meets: an error of the stream, a message, or neither.
pub data Round : Type 0 where
  stream_error : Option Error → Round
  message : Message → Round
  idle : Round

-- How the loop has come to be where it is: it has returned, it waits for its next round, or a
-- handler has stopped the process.
pub data Progress : Type 0 where
  returned running : Progress
  stopped_by : Fault → Progress

module _ {S : Type 0} (sys : System S) (meanwhile : World S → World S) where
  -- The body of the `select`, whose error is only logged.
  abbrev handle_round : Round → World S → Outcome (Unit {0}) × World S
  handle_round (stream_error e) w = (ok tt, w)
  handle_round (message m) w = handle_message sys m w
  handle_round idle w = (ok tt, w)

  abbrev after_round : Outcome (Unit {0}) → Progress × World S → World S → Progress × World S
  after_round (panic f) rest w = (stopped_by f, w)
  after_round _ rest w = rest

  -- The test of the flag, with which a round begins.
  abbrev unless_stopped : Bool → World S → Progress × World S → Progress × World S
  unless_stopped true w rest = (returned, w)
  unless_stopped false w rest = rest

  -- The loop, for the rounds that it would make; `meanwhile` is what the other goroutines do before
  -- each of them.
  unfoldable pub start : List Round → World S → Progress × World S
  start [] w = (running, w)
  start (r ∷ rs) w =
      let w' = meanwhile w in
      let (result, w'') = handle_round r w' in
      let rest = start rs w'' in
      unless_stopped w'.manager.stop_flag w' (after_round result rest w'')

  -- No error of the stream and no empty round.
  abbrev pub without_error : Round → Round
  without_error (stream_error e) = idle
  without_error r = r

  handle_round-without_error :
      (r : Round) (w : World S) → handle_round (without_error r) w ≡ handle_round r w
  handle_round-without_error (stream_error e) w = refl
  handle_round-without_error (message m) w = refl
  handle_round-without_error idle w = refl

  -- Errors of the event stream change nothing that the loop does: it goes on as if they were rounds
  -- in which nothing happened.
  pub start_ignores_errors :
      (rs : List Round) (w : World S) → start (map without_error rs) w ≡ start rs w
  unfolding start
  start_ignores_errors [] w = refl
  start_ignores_errors (r ∷ rs) w = ground (
    arith,
    handle_round-without_error r (meanwhile w),
    start_ignores_errors rs (handle_round r (meanwhile w)).1,
  )

  -- Whatever holds of both ways in which a round can go on holds of the round.
  unless_stopped_cases :
      (P : Progress × World S → Type 0) (flag : Bool) (w : World S) (rest : Progress × World S)
      → (flag ≡ true → P (returned, w))
      → P rest
      → P (unless_stopped flag w rest)
  unless_stopped_cases P true w rest h k = h refl
  unless_stopped_cases P false w rest h k = k

  after_round_cases :
      (P : Progress × World S → Type 0) (result : Outcome (Unit {0})) (rest : Progress × World S)
      (w : World S)
      → ((f : Fault) → P (stopped_by f, w))
      → P rest
      → P (after_round result rest w)
  after_round_cases P (ok t) rest w h k = k
  after_round_cases P (err e) rest w h k = k
  after_round_cases P (panic f) rest w h k = h f
  after_round_cases P blocks rest w h k = k

  -- A loop that has returned has seen the flag.
  IsStopped : Progress × World S → Type 0
  IsStopped (returned, w) = w.manager.stop_flag ≡ true
  IsStopped (running, w) = Unit {0}
  IsStopped (stopped_by f, w) = Unit {0}

  start-IsStopped : (rs : List Round) (w : World S) → IsStopped (start rs w)
  unfolding start IsStopped
  start-IsStopped [] w = tt
  start-IsStopped (r ∷ rs) w =
      let w' = meanwhile w in
      let next = handle_round r w' in
      unless_stopped_cases IsStopped w'.manager.stop_flag w'
        (after_round next.0 (start rs next.1) next.1) (λ e. e)
        (after_round_cases IsStopped next.0 (start rs next.1) next.1 (λ f. tt)
          (start-IsStopped rs next.1))

  returned-cases :
      (x : Progress × World S) → IsStopped x → (x.0 ≢ returned) ⊎ (x.1.manager.stop_flag ≡ true)
  unfolding IsStopped
  returned-cases (returned, w) h = inr h
  returned-cases (running, w) h = inl (λ e. absurd (cc e))
  returned-cases (stopped_by f, w) h = inl (λ e. absurd (cc e))

  -- If the other goroutines never reset the flag, then after `Stop` the loop returns in its next
  -- round and handles nothing more, whatever the stream holds; and in every run of the loop, if it
  -- returns then the flag is set.
  pub start_stops :
      (r : Round) (rs : List Round) (w v : World S)
      → ((u : World S) → u.manager.stop_flag ≡ true → (meanwhile u).manager.stop_flag ≡ true)
      → (start (r ∷ rs) (record w { manager = stop w.manager })
          ≡ (returned, meanwhile (record w { manager = stop w.manager })))
        × (((start rs v).0 ≢ returned) ⊎ ((start rs v).1.manager.stop_flag ≡ true))
  unfolding start stop
  start_stops r rs w v keeps =
      let kept = keeps (record w { manager = stop w.manager }) refl in
      (rw kept refl, returned-cases (start rs v) (start-IsStopped rs v))

  round_keeps :
      (P : World S → Type 0)
      → ((m : Message) (w : World S) → P w → P (handle_message sys m w).1)
      → (r : Round) (w : World S) → P w
      → P (handle_round r w).1
  round_keeps P keep (stream_error e) w h = h
  round_keeps P keep (message m) w h = keep m w h
  round_keeps P keep idle w h = h

  -- What every message and the other goroutines keep, the loop keeps.
  pub start_keeps :
      (P : World S → Type 0)
      → ((w : World S) → P w → P (meanwhile w))
      → ((m : Message) (w : World S) → P w → P (handle_message sys m w).1)
      → (rs : List Round) (w : World S) → P w
      → P (start rs w).1
  unfolding start
  start_keeps P other keep [] w h = h
  start_keeps P other keep (r ∷ rs) w h =
      let w' = meanwhile w in
      let next = handle_round r w' in
      let held = round_keeps P keep r w' (other w h) in
      unless_stopped_cases (λ x. P x.1) w'.manager.stop_flag w'
        (after_round next.0 (start rs next.1) next.1) (λ e. other w h)
        (after_round_cases (λ x. P x.1) next.0 (start rs next.1) next.1 (λ f. held)
          (start_keeps P other keep rs next.1 held))
