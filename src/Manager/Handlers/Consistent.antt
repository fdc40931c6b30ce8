-- ===== src/Manager/Handlers/Consistent.antt =====
-- The handlers' common use of the limiter and of the map.
use cars.Base.{
  ℕ, ◌+◌, ◌≤◌, ◌≡◌, ◌≢◌, ◌⊎◌, inl, inr, refl, sym, ap, ◌∙◌, Option, none, some, List, [], ◌∷◌, Text,
  get_elem?, length, All, arith,
}
use cars.Base.Map.{lookup}
use cars.Base.Outcome.{ok}
use cars.Base.Perm.{Apart}
use cars.Sandbox.{System, Request, Container}
use cars.Sandbox.Execute.{run, new_sandbox_container}
use cars.Sandbox.Lifecycle.Reach.{Reached}
use cars.Manager.{World, ContainerManager, get_container, new_sandbox_container_manager}
use cars.Manager.Handlers.{
  Phase, arrived, entered, waiting, answered, timed_out, failed, stopped, hung, Net, Action, goes,
  act,
}
use cars.Manager.Handlers.Lists.{set, sum_of, sum_of-set, set-All, set-Apart}

-- The slots that a handler has taken and not given back.
abbrev pub slot : Phase → ℕ
slot (arrived r) = 0
slot (answered r) = 0
slot _ = 1

-- The container that a handler has launched and not removed.
abbrev pub owned : Phase → Option Text
owned (Phase.launched d) = some d.id
owned (waiting id) = some id
owned (timed_out id) = some id
owned _ = none

abbrev pub Differ : Phase → Phase → Type 0
Differ p q = (id : Text) → owned p ≡ some id → owned q ≢ some id

pub Differ-sym : (p q : Phase) → Differ p q → Differ q p
Differ-sym p q h id e f = h id f e

abbrev pub Known : ContainerManager → Text → Type 0
Known m id = (d : Container) × (get_container m id ≡ some d)

module _ {S : Type 0} (sys : System S) where
  -- A launched container has just been started; a container that is waited for is in the map.
  abbrev pub Fits : ContainerManager → Phase → Type 0
  Fits m (Phase.launched d) = Reached sys d
  Fits m (waiting id) = Known m id
  Fits m (timed_out id) = Known m id
  Fits m _ = Unit {0}

  -- What a phase needs of the map is the entry of its container.
  pub Fits-known :
      (m m' : ContainerManager) (q : Phase)
      → ((id : Text) → owned q ≡ some id → Known m id → Known m' id)
      → Fits m q
      → Fits m' q
  Fits-known m m' (Phase.launched d) f h = h
  Fits-known m m' (waiting id) f h = f id refl h
  Fits-known m m' (timed_out id) f h = f id refl h
  Fits-known m m' (arrived r) f h = tt
  Fits-known m m' (entered r) f h = tt
  Fits-known m m' (answered r) f h = tt
  Fits-known m m' (failed r) f h = tt
  Fits-known m m' (stopped r) f h = tt
  Fits-known m m' hung f h = tt

  -- The limiter has one slot for each handler that has entered and has not answered, and no more
  -- than the limit; no two handlers have the same container, and the one that a handler waits for is
  -- in the map.
  pub record IsConsistent (max : ℕ) (n : Net S) : Type 0 where
    pub limit : n.world.manager.max_concurrent_containers ≡ max
    pub slots : length n.world.manager.limiter ≡ sum_of slot n.handlers
    pub limited : length n.world.manager.limiter ≤ max
    pub apart : Apart Differ n.handlers
    pub fitting : All (Fits n.world.manager) n.handlers
    pub reached : All (λ e. Reached sys e.1) n.world.manager.containers

  -- Docker gives a container that `Run` starts an id that no other handler's container has.
  abbrev pub IsFresh : Action → Net S → Type 0
  IsFresh (goes i) n =
      (r : Request) (d : Container) (s : S)
      → get_elem? n.handlers i ≡ some (entered r)
      → run sys (new_sandbox_container r) n.world.machine ≡ (ok (none, d), s)
      → All (λ p. owned p ≢ some d.id) n.handlers
  IsFresh _ n = Unit {0}

  -- From the start of a process with no handlers, steps in any order, with any change of the machine
  -- before each.
  pub data Reachable (max : ℕ) : Net S → Type 0 where
    starts :
        (s : S)
        → Reachable max (record {
          handlers = [];
          world = record { manager = new_sandbox_container_manager max; machine = s };
        })
    steps :
        (n : Net S) (s : S) (a : Action)
        → Reachable max n
        → IsFresh a (record n { world = record n.world { machine = s } })
        → Reachable max (act sys a (record n { world = record n.world { machine = s } }))

  -- One handler moves, and leaves what the others rely on as it was.
  pub moved-IsConsistent :
      (max : ℕ) (n : Net S) (i : ℕ) (p p' : Phase) (w : World S) (P : Phase → Type 0)
      → IsConsistent max n
      → get_elem? n.handlers i ≡ some p
      → All P n.handlers
      → ((q : Phase) → Differ p q → P q → Differ p' q)
      → ((q : Phase) → Differ p q → Fits n.world.manager q → Fits w.manager q)
      → Fits w.manager p'
      → w.manager.max_concurrent_containers ≡ n.world.manager.max_concurrent_containers
      → length w.manager.limiter + slot p ≡ length n.world.manager.limiter + slot p'
      → length w.manager.limiter ≤ max
      → All (λ e. Reached sys e.1) w.manager.containers
      → IsConsistent max (record { handlers = set i p' n.handlers; world = w })
  moved-IsConsistent max n i p p' w P v e a differs kept fits limit_eq slots_eq few a' = record {
    limit = limit_eq ∙ v.limit;
    slots = omega (arith, v.slots, slots_eq, sum_of-set slot i p p' n.handlers e);
    limited = few;
    apart = set-Apart Differ Differ-sym P p p' differs i n.handlers e v.apart a;
    fitting =
        set-All Differ Differ-sym (Fits n.world.manager) (Fits w.manager) p p' kept i n.handlers
          fits e v.apart v.fitting;
    reached = a';
  }

  pub anyone : (hs : List Phase) → All (λ p. Unit {0}) hs
  anyone [] = tt
  anyone (p ∷ hs) = (tt, anyone hs)

  -- One handler moves without a change of the map, and owns no other container than before.
  pub kept-IsConsistent :
      (max : ℕ) (n : Net S) (i : ℕ) (p p' : Phase) (w : World S)
      → IsConsistent max n
      → get_elem? n.handlers i ≡ some p
      → (owned p' ≡ owned p) ⊎ (owned p' ≡ none)
      → Fits w.manager p'
      → w.manager.containers ≡ n.world.manager.containers
      → w.manager.max_concurrent_containers ≡ n.world.manager.max_concurrent_containers
      → length w.manager.limiter + slot p ≡ length n.world.manager.limiter + slot p'
      → length w.manager.limiter ≤ max
      → IsConsistent max (record { handlers = set i p' n.handlers; world = w })
  kept-IsConsistent max n i p p' w v e own fits map_eq limit_eq slots_eq few =
      moved-IsConsistent max n i p p' w (λ p. Unit {0}) v e (anyone n.handlers)
        (λ q h _. differs q h own)
        (λ q h f.
          Fits-known n.world.manager w.manager q (λ id o (d, g). (d, ap (lookup id) map_eq ∙ g)) f)
        fits limit_eq slots_eq few (rw map_eq v.reached)
    where
      differs : (q : Phase) → Differ p q → (owned p' ≡ owned p) ⊎ (owned p' ≡ none) → Differ p' q
      differs q h (inl same_owned) id f = h id (sym same_owned ∙ f)
      differs q h (inr nothing) id f = absurd (cc (nothing, f))
