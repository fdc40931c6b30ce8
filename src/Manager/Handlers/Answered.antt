-- ===== src/Manager/Handlers/Answered.antt =====
-- What holds of the handlers in every state that the process reaches.
use cars.Base.{
  ℕ, ◌≡◌, ◌≢◌, ◌⊎◌, inl, inr, refl, ap, ◌∙◌, some, Text, List, [], ◌∷◌, get_elem?, length, All,
  arith, Option-cases, Bool-cases,
}
use cars.Base.Outcome.{Outcome, ok, err, panic, blocks}
use cars.Sandbox.{System, Request, Container, Message, Response, closed_channel}
use cars.Sandbox.Lifecycle.{add_docker_event_message, get_response}
use cars.Manager.{World, handle_message, get_container, new_sandbox_container_manager, put_back}
use cars.Manager.Responses.{handles-AllReached}
use cars.Manager.Handlers.{
  Phase, arrived, waiting, answered, Net, Action, arrives, goes, expires, streams, advance, act,
  is_closed,
}
use cars.Manager.Handlers.Lists.{All-get, All-map}
use cars.Manager.Handlers.Consistent.{
  Known, Fits, Fits-known, IsConsistent, IsFresh, Reachable, starts, steps, Differ,
}
use cars.Manager.Handlers.Steps.{
  insert-known, goes_from, expires_from, goes_closed, waits, closed_of, without,
}

module _ {S : Type 0} (sys : System S) where
  -- A message of the event stream changes no more than entries that are in the map.
  put_back-kept :
      (id : Text) (w : World S) (x : Outcome Container × S)
      → let w' = (put_back sys id w x).1 in
        (w'.manager.limiter ≡ w.manager.limiter)
        × (w'.manager.max_concurrent_containers ≡ w.manager.max_concurrent_containers)
        × ((j : Text) → Known w.manager j → Known w'.manager j)
  put_back-kept id w (ok d, s) = (refl, refl, λ j. insert-known id j d w.manager.containers)
  put_back-kept id w (err e, s) = (refl, refl, λ j h. h)
  put_back-kept id w (panic f, s) = (refl, refl, λ j h. h)
  put_back-kept id w (blocks, s) = (refl, refl, λ j h. h)

  handle_message-kept :
      (m : Message) (w : World S)
      → let w' = (handle_message sys m w).1 in
        (w'.manager.limiter ≡ w.manager.limiter)
        × (w'.manager.max_concurrent_containers ≡ w.manager.max_concurrent_containers)
        × ((j : Text) → Known w.manager j → Known w'.manager j)
  unfolding handle_message
  handle_message-kept m w = elim (Option-cases (get_container w.manager m.id)) [
    | inl e ↦ rw (e, handle_message) (refl, refl, λ j h. h)
    | inr (d, e) ↦
        rw (e, handle_message) (put_back-kept m.id w (add_docker_event_message sys m d w.machine))
  ]

  streams-IsConsistent :
      (max : ℕ) (m : Message) (n : Net S)
      → IsConsistent sys max n
      → IsConsistent sys max (record n { world = (handle_message sys m n.world).1 })
  streams-IsConsistent max m n v =
      let (limiter_eq, max_eq, kept) = handle_message-kept m n.world in
      record {
        limit = max_eq ∙ v.limit;
        slots = ap length limiter_eq ∙ v.slots;
        limited = omega (arith, v.limited, ap length limiter_eq);
        apart = v.apart;
        fitting =
            All-map (Fits sys n.world.manager) (Fits sys (handle_message sys m n.world).1.manager)
              n.handlers
              (λ q.
                Fits-known sys n.world.manager (handle_message sys m n.world).1.manager q
                  (λ id o. kept id))
              v.fitting;
        reached = handles-AllReached sys m n.world v.reached;
      }

  unowned : (r : Request) (hs : List Phase) → All (Differ (arrived r)) hs
  unowned r [] = tt
  unowned r (p ∷ hs) = (λ id h. absurd (cc h), unowned r hs)

  act-IsConsistent :
      (max : ℕ) (a : Action) (n : Net S)
      → IsFresh sys a n
      → IsConsistent sys max n
      → IsConsistent sys max (act sys a n)
  unfolding act
  act-IsConsistent max (arrives r) n fresh v = record {
    limit = v.limit;
    slots = omega (arith, v.slots);
    limited = v.limited;
    apart = (unowned r n.handlers, v.apart);
    fitting = (tt, v.fitting);
    reached = v.reached;
  }
  act-IsConsistent max (goes i) n fresh v = elim (Option-cases (get_elem? n.handlers i)) [
    | inl e ↦ rw e v
    | inr (p, e) ↦ rw e (goes_from sys max n i p v e fresh)
  ]
  act-IsConsistent max (expires i) n fresh v = elim (Option-cases (get_elem? n.handlers i)) [
    | inl e ↦ rw e v
    | inr (p, e) ↦ rw e (expires_from sys max n i p v e)
  ]
  act-IsConsistent max (streams m) n fresh v = streams-IsConsistent max m n v

  -- However the steps of the handlers, the timers and the event stream are interleaved, if Docker
  -- gives new containers new ids: the slots that are taken are those of the handlers that have entered
  -- and not answered, and no more than the limit; no two handlers have the same container; the
  -- container of every handler that waits or has timed out is in the map; and every container in the
  -- map, or about to be entered, has been started and has handled only events.
  pub Reachable-IsConsistent : (max : ℕ) (n : Net S) → Reachable sys max n → IsConsistent sys max n
  unfolding new_sandbox_container_manager
  Reachable-IsConsistent max _ (starts s) = record {
    limit = refl;
    slots = refl;
    limited = omega arith;
    apart = tt;
    fitting = tt;
    reached = tt;
  }
  Reachable-IsConsistent max _ (steps n s a before fresh) =
      let v = Reachable-IsConsistent max n before in
      act-IsConsistent max a (record n { world = record n.world { machine = s } }) fresh
        (record {
          limit = v.limit;
          slots = v.slots;
          limited = v.limited;
          apart = v.apart;
          fitting = v.fitting;
          reached = v.reached;
        })

  -- However the steps are interleaved, if Docker gives new containers new ids, the container of a
  -- handler that waits is in the map. While its channel is not closed, the handler waits on. Once it
  -- is closed, the handler's next step gets the container's response, never the nil one, gives one slot
  -- back without a wait, and takes the container out of the map.
  pub waiting_answered :
      (max : ℕ) (n : Net S) (i : ℕ) (id : Text)
      → Reachable sys max n
      → get_elem? n.handlers i ≡ some (waiting id)
      → (d : Container) × (get_container n.world.manager id ≡ some d)
        × (((d.complete ≢ closed_channel)
              × (advance sys (waiting id) n.world ≡ (waiting id, n.world)))
            ⊎ ((d.complete ≡ closed_channel)
                × (response : Response) × (get_response d ≡ ok response)
                × (advance sys (waiting id) n.world ≡ (answered response, without id n.world))))
  waiting_answered max n i id reachable e =
      let v = Reachable-IsConsistent max n reachable in
      let (d, h) = All-get (Fits sys n.world.manager) i (waiting id) n.handlers e v.fitting in
      (
        d,
        h,
        elim (Bool-cases (is_closed (some d))) [
          | inl c ↦
              let (response, r, answers) = goes_closed sys max n i id d v e h (closed_of d c) in
              inr (closed_of d c, response, r, answers)
          | inr o ↦
              inl (λ c. absurd (ground (arith, o, c)), waits sys max n i id (ap is_closed h ∙ o))
        ],
      )
