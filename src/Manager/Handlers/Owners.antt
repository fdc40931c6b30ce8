-- ===== src/Manager/Handlers/Owners.antt =====
-- The containers in the map and their handlers.
use cars.Base.{
  ℕ, suc, ◌≡◌, ◌≢◌, inl, inr, refl, sym, ap, ◌∙◌, Option, none, some, List, [], ◌∷◌, Text,
  get_elem?, All, arith, Option-cases, Bool-cases, same, same_iff, subst,
}
use cars.Base.Map.{lookup, insert, delete, lookup-All}
use cars.Base.Outcome.{Outcome, ok, err, panic, blocks}
use cars.Base.Perm.{Apart}
use cars.Sandbox.{System, Request, Container, Message}
use cars.Sandbox.Lifecycle.{add_docker_event_message}
use cars.Manager.{
  World, acquire, store, handle_message, get_container, new_sandbox_container_manager, put_back,
}
use cars.Manager.Handlers.{
  Phase, arrived, entered, waiting, answered, timed_out, failed, stopped, hung, Net, Action,
  arrives, goes, expires, streams, advance, advance_at, time_out, act, is_closed,
}
use cars.Manager.Handlers.Lists.{
  set, get_elem?-set, get_elem?-set_same, Apart-get, All-get, All-map,
}
use cars.Manager.Handlers.Consistent.{
  Fits, IsConsistent, Reachable, starts, steps, Differ, Differ-sym, owned,
}
use cars.Manager.Handlers.Steps.{goes_closed, waits, closed_of, without}
use cars.Manager.Handlers.Answered.{Reachable-IsConsistent}

-- The container that a handler has entered into the map.
abbrev pub holds : Phase → Option Text
holds (waiting id) = some id
holds (timed_out id) = some id
holds _ = none

-- One of the handlers has entered the container.
abbrev pub Held : List Phase → Text → Type 0
Held hs k = (j : ℕ) × (q : Phase) × (get_elem? hs j ≡ some q) × (holds q ≡ some k)

Held-set :
    (i : ℕ) (p p' : Phase) (hs : List Phase) (k : Text)
    → get_elem? hs i ≡ some p
    → (holds p ≡ some k → holds p' ≡ some k)
    → Held hs k
    → Held (set i p' hs) k
Held-set i p p' hs k e grip (j, q, at, h) = elim (get_elem?-set i j p p' q hs e at) [
  | inl one ↦ (i, p', get_elem?-set_same i p p' hs e, grip (ap holds one ∙ h))
  | inr other ↦ (j, q, other, h)
]

Held-later : (p : Phase) (hs : List Phase) (k : Text) → Held hs k → Held (p ∷ hs) k
Held-later p hs k (j, q, at, h) = (suc j, q, at, h)

-- Only other entries are left.
delete-All_ne :
    (P : Text → Type 0) (k : Text) (m : List (Text × Container))
    → All (λ e. P e.0) m
    → All (λ e. (k ≢ e.0) × P e.0) (delete k m)
unfolding delete
delete-All_ne P k [] a = tt
delete-All_ne P k ((j, w) ∷ m) a = elim (Bool-cases (same j k)) [
  | inl hit ↦ rw hit (delete-All_ne P k m a.1)
  | inr miss ↦
      rw miss ((λ h. absurd (cc (miss, (same_iff j k).1 (sym h))), a.0), delete-All_ne P k m a.1)
]

insert-All_keys :
    (P : Text → Type 0) (k : Text) (v : Container) (m : List (Text × Container))
    → P k
    → All (λ e. P e.0) m
    → All (λ e. P e.0) (insert k v m)
unfolding insert
insert-All_keys P k v [] h a = (h, a)
insert-All_keys P k v ((j, w) ∷ m) h a = elim (Bool-cases (same j k)) [
  | inl hit ↦ rw hit (a.0, a.1)
  | inr miss ↦ rw miss (a.0, insert-All_keys P k v m h a.1)
]

module _ {S : Type 0} where
  -- Every container in the map has been entered by a handler that waits for it or has timed out.
  abbrev pub IsOwned : Net S → Type 0
  IsOwned n = All (λ e. Held n.handlers e.0) n.world.manager.containers

  -- A handler moves that keeps what it holds, and the map stays.
  same_map-IsOwned :
      (n : Net S) (i : ℕ) (p p' : Phase) (w : World S)
      → get_elem? n.handlers i ≡ some p
      → ((k : Text) → holds p ≡ some k → holds p' ≡ some k)
      → w.manager.containers ≡ n.world.manager.containers
      → IsOwned n
      → IsOwned (record { handlers = set i p' n.handlers; world = w })
  same_map-IsOwned n i p p' w e grip h a = rw h (
      All-map (λ x. Held n.handlers x.0) (λ x. Held (set i p' n.handlers) x.0)
        n.world.manager.containers (λ x. Held-set i p p' n.handlers x.0 e (grip x.0)) a)

module _ {S : Type 0} (sys : System S) where
  run-map :
      (r : Request) (w : World S)
      → (advance sys (entered r) w).1.manager.containers ≡ w.manager.containers
  unfolding advance
  run-map r w = ground arith

  acquire-map :
      (r : Request) (w : World S)
      → (advance sys (arrived r) w).1.manager.containers ≡ w.manager.containers
  unfolding advance acquire
  acquire-map r w = ground arith

  launched-IsOwned :
      (n : Net S) (i : ℕ) (d : Container)
      → get_elem? n.handlers i ≡ some (Phase.launched d)
      → IsOwned n
      → IsOwned (advance_at sys i (some (Phase.launched d)) n)
  unfolding advance store
  launched-IsOwned n i d e a =
      let hs' = set i (waiting d.id) n.handlers in
      insert-All_keys (Held hs') d.id d n.world.manager.containers
        (i, waiting d.id, get_elem?-set_same i (Phase.launched d) (waiting d.id) n.handlers e, refl)
        (All-map (λ x. Held n.handlers x.0) (λ x. Held hs' x.0) n.world.manager.containers
          (λ x. Held-set i (Phase.launched d) (waiting d.id) n.handlers x.0 e (λ h. absurd (cc h)))
          a)

  removed-IsOwned :
      (n : Net S) (i : ℕ) (id : Text) (p' : Phase)
      → get_elem? n.handlers i ≡ some (waiting id)
      → IsOwned n
      → IsOwned (record { handlers = set i p' n.handlers; world = without id n.world })
  removed-IsOwned n i id p' e a =
      All-map (λ x. (id ≢ x.0) × Held n.handlers x.0) (λ x. Held (set i p' n.handlers) x.0)
        (delete id n.world.manager.containers)
        (λ x (ne, h). Held-set i (waiting id) p' n.handlers x.0 e (λ one. absurd (ne (cc one))) h)
        (delete-All_ne (Held n.handlers) id n.world.manager.containers a)

  waiting-IsOwned :
      (max : ℕ) (n : Net S) (i : ℕ) (id : Text)
      → IsConsistent sys max n
      → get_elem? n.handlers i ≡ some (waiting id)
      → IsOwned n
      → IsOwned (advance_at sys i (some (waiting id)) n)
  waiting-IsOwned max n i id v e a =
      let (d, h) = All-get (Fits sys n.world.manager) i (waiting id) n.handlers e v.fitting in
      elim (Bool-cases (is_closed (some d))) [
        | inl c ↦
            let (response, _, answers) = goes_closed sys max n i id d v e h (closed_of d c) in
            rw answers (removed-IsOwned n i id (answered response) e a)
        | inr o ↦
            rw (waits sys max n i id (ap is_closed h ∙ o))
              (same_map-IsOwned n i (waiting id) (waiting id) n.world e (λ k g. g) refl a)
      ]

  goes-IsOwned :
      (max : ℕ) (n : Net S) (i : ℕ) (p : Phase)
      → IsConsistent sys max n
      → get_elem? n.handlers i ≡ some p
      → IsOwned n
      → IsOwned (advance_at sys i (some p) n)
  unfolding advance
  goes-IsOwned max n i (arrived r) v e a =
      same_map-IsOwned n i (arrived r) (advance sys (arrived r) n.world).0
        (advance sys (arrived r) n.world).1 e (λ k h. absurd (cc h)) (acquire-map r n.world) a
  goes-IsOwned max n i (entered r) v e a =
      same_map-IsOwned n i (entered r) (advance sys (entered r) n.world).0
        (advance sys (entered r) n.world).1 e (λ k h. absurd (cc h)) (run-map r n.world) a
  goes-IsOwned max n i (Phase.launched d) v e a = launched-IsOwned n i d e a
  goes-IsOwned max n i (waiting id) v e a = waiting-IsOwned max n i id v e a
  goes-IsOwned max n i (answered r) v e a =
      same_map-IsOwned n i (answered r) (answered r) n.world e (λ k h. h) refl a
  goes-IsOwned max n i (timed_out id) v e a =
      same_map-IsOwned n i (timed_out id) (timed_out id) n.world e (λ k h. h) refl a
  goes-IsOwned max n i (failed f) v e a =
      same_map-IsOwned n i (failed f) (failed f) n.world e (λ k h. h) refl a
  goes-IsOwned max n i (stopped f) v e a =
      same_map-IsOwned n i (stopped f) (stopped f) n.world e (λ k h. h) refl a
  goes-IsOwned max n i hung v e a = same_map-IsOwned n i hung hung n.world e (λ k h. h) refl a

  time_out-holds : (p : Phase) (k : Text) → holds p ≡ some k → holds (time_out p) ≡ some k
  time_out-holds (waiting id) k h = h
  time_out-holds (timed_out id) k h = h
  time_out-holds (arrived r) k h = absurd (cc h)
  time_out-holds (entered r) k h = absurd (cc h)
  time_out-holds (Phase.launched d) k h = absurd (cc h)
  time_out-holds (answered r) k h = absurd (cc h)
  time_out-holds (failed f) k h = absurd (cc h)
  time_out-holds (stopped f) k h = absurd (cc h)
  time_out-holds hung k h = absurd (cc h)

  put_back-IsOwned :
      (hs : List Phase) (id : Text) (w : World S) (d : Container) (x : Outcome Container × S)
      → get_container w.manager id ≡ some d
      → IsOwned (record { handlers = hs; world = w })
      → IsOwned (record { handlers = hs; world = (put_back sys id w x).1 })
  put_back-IsOwned hs id w d (ok d', s) e a =
      insert-All_keys (Held hs) id d' w.manager.containers
        (lookup-All (λ k c. Held hs k) id w.manager.containers e a) a
  put_back-IsOwned hs id w d (err f, s) e a = a
  put_back-IsOwned hs id w d (panic f, s) e a = a
  put_back-IsOwned hs id w d (blocks, s) e a = a

  act-IsOwned :
      (max : ℕ) (a : Action) (n : Net S)
      → IsConsistent sys max n
      → IsOwned n
      → IsOwned (act sys a n)
  unfolding act handle_message
  act-IsOwned max (arrives r) n v o =
      All-map (λ e. Held n.handlers e.0) (λ e. Held (arrived r ∷ n.handlers) e.0)
        n.world.manager.containers (λ e. Held-later (arrived r) n.handlers e.0) o
  act-IsOwned max (goes i) n v o = elim (Option-cases (get_elem? n.handlers i)) [
    | inl e ↦ rw e o
    | inr (p, e) ↦ rw e (goes-IsOwned max n i p v e o)
  ]
  act-IsOwned max (expires i) n v o = elim (Option-cases (get_elem? n.handlers i)) [
    | inl e ↦ rw e o
    | inr (p, e) ↦ rw e (same_map-IsOwned n i p (time_out p) n.world e (time_out-holds p) refl o)
  ]
  act-IsOwned max (streams m) n v o = elim (Option-cases (get_container n.world.manager m.id)) [
    | inl e ↦ rw e o
    | inr (d, e) ↦ rw e (
        put_back-IsOwned n.handlers m.id n.world d
          (add_docker_event_message sys m d n.world.machine) e o)
  ]

  -- However the steps are interleaved, if Docker gives new containers new ids, every container in the
  -- map has been entered by a handler that waits for it or has timed out.
  pub Reachable-IsOwned : (max : ℕ) (n : Net S) → Reachable sys max n → IsOwned n
  unfolding new_sandbox_container_manager
  Reachable-IsOwned max _ (starts s) = tt
  Reachable-IsOwned max _ (steps n s a before fresh) =
      let v = Reachable-IsConsistent sys max n before in
      act-IsOwned max a (record n { world = record n.world { machine = s } })
        (record {
          limit = v.limit;
          slots = v.slots;
          limited = v.limited;
          apart = v.apart;
          fitting = v.fitting;
          reached = v.reached;
        })
        (Reachable-IsOwned max n before)

  holds-owned : (q : Phase) (k : Text) → holds q ≡ some k → owned q ≡ some k
  holds-owned (waiting id) k h = h
  holds-owned (timed_out id) k h = h
  holds-owned (arrived r) k h = absurd (cc h)
  holds-owned (entered r) k h = absurd (cc h)
  holds-owned (Phase.launched d) k h = absurd (cc h)
  holds-owned (answered r) k h = absurd (cc h)
  holds-owned (failed f) k h = absurd (cc h)
  holds-owned (stopped f) k h = absurd (cc h)
  holds-owned hung k h = absurd (cc h)

  not-Held :
      (n : Net S) (i : ℕ) (d : Container)
      → Apart Differ n.handlers
      → get_elem? n.handlers i ≡ some (Phase.launched d)
      → ¬ Held n.handlers d.id
  not-Held n i d a e (j, q, at, h) =
      elim (Apart-get Differ Differ-sym i j (Phase.launched d) q n.handlers e at a) [
        | inl one ↦ absurd (cc (ap holds one, h))
        | inr differ ↦ differ d.id refl (holds-owned q d.id h)
      ]

  -- However the steps are interleaved, if Docker gives new containers new ids: between the start of a
  -- container and its entry into the map, every message about it, also that of its removal, is
  -- dropped, and changes nothing.
  pub early_message_dropped :
      (max : ℕ) (n : Net S) (i : ℕ) (d : Container) (m : Message)
      → Reachable sys max n
      → get_elem? n.handlers i ≡ some (Phase.launched d)
      → m.id ≡ d.id
      → act sys (streams m) n ≡ n
  unfolding act handle_message
  early_message_dropped max n i d m reachable e about =
      elim (Option-cases (get_container n.world.manager m.id)) [
        | inl unknown ↦ rw unknown
        | inr (c, known) ↦ absurd (
            not-Held n i d (Reachable-IsConsistent sys max n reachable).apart e (
              lookup-All (λ k x. Held n.handlers k) d.id n.world.manager.containers
                (subst (λ k. lookup k n.world.manager.containers ≡ some c) about known)
                (Reachable-IsOwned max n reachable)))
      ]
