-- ===== src/Manager/Slots.antt =====
-- What the calls of the manager do to the slots of its limiter.
use native.Mathlib.Decide.{dec_lt}
use cars.Base.{
  ◌+◌, ◌≤◌, ◌<◌, ◌≡◌, ◌≢◌, ◌⊎◌, inl, inr, refl, Option, none, some, List, [], ◌∷◌, ◌++◌, ◌∙◌, ap,
  length, length-append, arith,
}
use cars.Base.Map.{insert}
use cars.Base.Outcome.{Outcome, ok, err, panic, blocks, Error}
use cars.Sandbox.{System, Request, Container}
use cars.Sandbox.Execute.{run, new_sandbox_container}
use cars.Manager.{ContainerManager, World, store, stored, add_container}

module _ {S : Type 0} (sys : System S) where
  -- The end of `AddContainer` keeps the limiter and the limit, and changes the map only by an entry
  -- for a started container.
  abbrev pub Entered : ContainerManager → Outcome Container × World S → Type 0
  Entered m (result, w) =
      (w.manager.limiter ≡ m.limiter)
      × (w.manager.max_concurrent_containers ≡ m.max_concurrent_containers)
      × (((d : Container) × (result ≡ ok d) × (w.manager.containers ≡ insert d.id d m.containers))
          ⊎ (((d : Container) → result ≢ ok d) × (w.manager.containers ≡ m.containers)))

  stored-Entered :
      (w : World S) (x : Outcome (Option Error × Container) × S)
      → Entered w.manager (stored sys w x)
  unfolding store
  stored-Entered w (ok (none, d), s) = (refl, refl, inl (d, refl, refl))
  stored-Entered w (ok (some e, d), s) = (refl, refl, inr (λ d' h. cc, refl))
  stored-Entered w (err e, s) = (refl, refl, inr (λ d' h. cc, refl))
  stored-Entered w (panic p, s) = (refl, refl, inr (λ d' h. cc, refl))
  stored-Entered w (blocks, s) = (refl, refl, inr (λ d' h. cc, refl))

  abbrev pub with_slot : Request → ContainerManager → ContainerManager
  with_slot r m = record m { limiter = m.limiter ++ r.id ∷ [] }

  pub add_container_free :
      (r : Request) (w : World S)
      → length w.manager.limiter < w.manager.max_concurrent_containers
      → add_container sys r w
        ≡ stored sys
            (record w { manager = with_slot r w.manager })
            (run sys (new_sandbox_container r) w.machine)
  unfolding add_container
  add_container_free r w free = ground arith

  -- While the limiter is full, `AddContainer` waits and has touched nothing. Otherwise it takes one
  -- slot, whatever the start of the container ends in, and enters a container into the map only if
  -- the start ends without an error.
  pub add_container_slot :
      (r : Request) (w : World S)
      → ((w.manager.max_concurrent_containers ≤ length w.manager.limiter)
          × (add_container sys r w ≡ (blocks, w)))
        ⊎ ((length w.manager.limiter < w.manager.max_concurrent_containers)
            × Entered (with_slot r w.manager) (add_container sys r w))
  unfolding add_container
  add_container_slot r w =
      elim (dec_lt (length w.manager.limiter) w.manager.max_concurrent_containers) [
        | yes free ↦ inr (
          free,
          rw (add_container_free r w free) (
              stored-Entered (record w { manager = with_slot r w.manager })
                (run sys (new_sandbox_container r) w.machine)),
        )
        | no full ↦ inl (omega arith, ground arith)
      ]

  -- The world after some calls of `AddContainer`, one after the other.
  abbrev pub after_all : List Request → World S → World S
  after_all [] w = w
  after_all (r ∷ rs) w = after_all rs (add_container sys r w).1

  -- Each of the calls returns an error.
  abbrev pub AllFail : List Request → World S → Type 0
  AllFail [] w = Unit
  AllFail (r ∷ rs) w =
      ((e : Error) × ((add_container sys r w).0 ≡ err e)) × AllFail rs (add_container sys r w).1

  not_entered :
      (r : Request) (w : World S)
      → ((e : Error) × ((add_container sys r w).0 ≡ err e))
      → ((d : Container) × ((add_container sys r w).0 ≡ ok d)
          × ((add_container sys r w).1.manager.containers ≡ insert d.id d w.manager.containers))
        ⊎ (((d : Container) → (add_container sys r w).0 ≢ ok d)
            × ((add_container sys r w).1.manager.containers ≡ w.manager.containers))
      → (add_container sys r w).1.manager.containers ≡ w.manager.containers
  not_entered r w (e, h) (inl (d, g, _)) = absurd (cc (h, g))
  not_entered r w (e, h) (inr (_, kept)) = kept

  -- If as many calls of `AddContainer` as there are free slots return an error, one after the other,
  -- then the map of containers is as it was, and yet every further call waits.
  pub failures_exhaust :
      (rs : List Request) (w : World S) (r : Request)
      → AllFail rs w
      → length w.manager.limiter + length rs ≡ w.manager.max_concurrent_containers
      → ((after_all rs w).manager.containers ≡ w.manager.containers)
        × (add_container sys r (after_all rs w) ≡ (blocks, after_all rs w))
  failures_exhaust [] w r f h = elim (add_container_slot r w) [
    | inl (_, waits) ↦ (refl, waits)
    | inr (free, _) ↦ absurd (omega arith)
  ]
  failures_exhaust (x ∷ rs) w r f h = elim (add_container_slot x w) [
    | inl (_, waits) ↦ absurd (ground arith)
    | inr (free, (limiter_eq, max_eq, ends)) ↦
        let rest =
          failures_exhaust rs (add_container sys x w).1 r f.1
            (omega (arith, ap length limiter_eq, length-append w.manager.limiter (x.id ∷ []))) in
        (rest.0 ∙ not_entered x w f.0 ends, rest.1)
  ]
