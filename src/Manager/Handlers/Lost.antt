-- ===== src/Manager/Handlers/Lost.antt =====
-- The slots that handlers leave behind.
use cars.Base.{ℕ, ◌≤◌, ◌≡◌, inl, inr, List, [], ◌∷◌, get_elem?, length, arith, Option-cases}
use cars.Sandbox.{System, Request}
use cars.Manager.{World, acquire}
use cars.Manager.Handlers.{
  Phase, arrived, entered, waiting, answered, timed_out, failed, stopped, hung, Net, Action,
  arrives, goes, expires, streams, advance, time_out, act,
}
use cars.Manager.Handlers.Lists.{sum_of, sum_of-set}
use cars.Manager.Handlers.Consistent.{IsFresh, Reachable, steps, slot}
use cars.Manager.Handlers.Answered.{Reachable-IsConsistent}

-- A handler that is over and has kept its slot.
abbrev pub lost : Phase → ℕ
lost (timed_out id) = 1
lost (failed e) = 1
lost (stopped f) = 1
lost hung = 1
lost _ = 0

lost-slot : (hs : List Phase) → sum_of lost hs ≤ sum_of slot hs
lost-slot [] = omega arith
lost-slot (p ∷ hs) = omega (arith, lost-slot hs, below p)
  where
    below : (p : Phase) → lost p ≤ slot p
    below (arrived r) = omega arith
    below (entered r) = omega arith
    below (Phase.launched d) = omega arith
    below (waiting id) = omega arith
    below (answered r) = omega arith
    below (timed_out id) = omega arith
    below (failed e) = omega arith
    below (stopped f) = omega arith
    below hung = omega arith

module _ {S : Type 0} (sys : System S) where
  -- A state and all that come after it.
  pub data Later (n : Net S) : Net S → Type 0 where
    now : Later n n
    later :
        (k : Net S) (s : S) (a : Action)
        → Later n k
        → IsFresh sys a (record k { world = record k.world { machine = s } })
        → Later n (act sys a (record k { world = record k.world { machine = s } }))

  Later-Reachable : (max : ℕ) (n k : Net S) → Reachable sys max n → Later n k → Reachable sys max k
  Later-Reachable max n _ r now = r
  Later-Reachable max n _ r (later k s a before fresh) =
      steps k s a (Later-Reachable max n k r before) fresh

  advance-lost : (p : Phase) (w : World S) → lost p ≤ lost (advance sys p w).0
  unfolding advance
  advance-lost (arrived r) w = omega arith
  advance-lost (entered r) w = omega arith
  advance-lost (Phase.launched d) w = omega arith
  advance-lost (waiting id) w = omega arith
  advance-lost (answered r) w = omega arith
  advance-lost (timed_out id) w = omega arith
  advance-lost (failed e) w = omega arith
  advance-lost (stopped f) w = omega arith
  advance-lost hung w = omega arith

  time_out-lost : (p : Phase) → lost p ≤ lost (time_out p)
  time_out-lost (arrived r) = omega arith
  time_out-lost (entered r) = omega arith
  time_out-lost (Phase.launched d) = omega arith
  time_out-lost (waiting id) = omega arith
  time_out-lost (answered r) = omega arith
  time_out-lost (timed_out id) = omega arith
  time_out-lost (failed e) = omega arith
  time_out-lost (stopped f) = omega arith
  time_out-lost hung = omega arith

  act-lost : (a : Action) (n : Net S) → sum_of lost n.handlers ≤ sum_of lost (act sys a n).handlers
  unfolding act
  act-lost (arrives r) n = omega arith
  act-lost (streams m) n = omega arith
  act-lost (goes i) n = elim (Option-cases (get_elem? n.handlers i)) [
    | inl e ↦ rw e (omega arith)
    | inr (p, e) ↦ rw e (
        omega (
          arith,
          sum_of-set lost i p (advance sys p n.world).0 n.handlers e,
          advance-lost p n.world,
        ))
  ]
  act-lost (expires i) n = elim (Option-cases (get_elem? n.handlers i)) [
    | inl e ↦ rw e (omega arith)
    | inr (p, e) ↦
        rw e (omega (arith, sum_of-set lost i p (time_out p) n.handlers e, time_out-lost p))
  ]

  Later-lost : (n k : Net S) → Later n k → sum_of lost n.handlers ≤ sum_of lost k.handlers
  Later-lost n _ now = omega arith
  Later-lost n _ (later k s a before fresh) = omega (
    arith,
    Later-lost n k before,
    act-lost a (record k { world = record k.world { machine = s } }),
  )

  -- If Docker gives new containers new ids: once as many handlers as there are slots have timed out,
  -- failed, stopped or hung after they had entered, then, whatever steps follow, no other handler ever
  -- enters, and the next step of one that has arrived is to wait.
  pub all_lost_lem :
      (max : ℕ) (n k : Net S) (r : Request)
      → Reachable sys max n
      → max ≤ sum_of lost n.handlers
      → Later n k
      → advance sys (arrived r) k.world ≡ (arrived r, k.world)
  unfolding advance acquire
  all_lost_lem max n k r reachable gone after =
      let v = Reachable-IsConsistent sys max k (Later-Reachable max n k reachable after) in
      let full : max ≤ length k.world.manager.limiter =
        omega (arith, v.slots, lost-slot k.handlers, Later-lost n k after) in
      ground (arith, v.limit, full)
