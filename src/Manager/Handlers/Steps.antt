-- ===== src/Manager/Handlers/Steps.antt =====
-- Every step of the handlers keeps their use of the manager consistent.
use native.Mathlib.Decide.{dec_lt}
use cars.Base.{
  ℕ, suc, ◌≡◌, ◌≢◌, inl, inr, refl, sym, ap, ◌∙◌, true, false, Option, none, some, List, [], ◌∷◌,
  ◌++◌, Text, get_elem?, length, length-append, drop, All, arith, Bool-cases, same, same_iff,
}
use cars.Base.Map.{
  lookup, insert, delete, lookup-insert, lookup-delete, lookup-insert_same, insert-All, delete-All,
  lookup-All,
}
use cars.Base.Outcome.{Outcome, ok, err, panic, blocks, Error}
use cars.Sandbox.{System, Request, Container, Response, closed_channel}
use cars.Sandbox.Execute.{run, new_sandbox_container}
use cars.Sandbox.Lifecycle.{get_response}
use cars.Sandbox.Lifecycle.Reach.{Reached, launched, get_response_total}
use cars.Manager.{World, acquire, store, remove_container, get_container, get_manager_response}
use cars.Manager.Handlers.{
  Phase, arrived, entered, waiting, answered, timed_out, failed, stopped, hung, Net, goes, advance,
  advance_at, time_out_at, after_run, is_closed,
}
use cars.Manager.Handlers.Lists.{set, All-get, sum_of-get}
use cars.Manager.Handlers.Consistent.{
  Fits-known, Fits, IsConsistent, IsFresh, owned, slot, kept-IsConsistent, moved-IsConsistent,
  anyone,
}

-- An entry stays in the map when another is written.
pub insert-known :
    (k id : Text) (v : Container) (m : List (Text × Container))
    → ((d : Container) × (lookup id m ≡ some d))
    → (d : Container) × (lookup id (insert k v m) ≡ some d)
insert-known k id v m (d, h) = elim (Bool-cases (same k id)) [
  | inl hit ↦ (v, rw (lookup-insert k id v m, hit) refl)
  | inr miss ↦ (d, rw (lookup-insert k id v m, miss) h)
]

delete-known :
    (k id : Text) (m : List (Text × Container))
    → k ≢ id
    → ((d : Container) × (lookup id m ≡ some d))
    → (d : Container) × (lookup id (delete k m) ≡ some d)
delete-known k id m ne (d, h) = elim (Bool-cases (same k id)) [
  | inl hit ↦ absurd (ne ((same_iff k id).0 hit))
  | inr miss ↦ (d, rw (lookup-delete k id m, miss) h)
]

-- The world after a container has been removed.
abbrev pub without : {S : Type 0} → Text → World S → World S
without id w = record w {
  manager = record w.manager {
    limiter = drop 1 w.manager.limiter;
    containers = delete id w.manager.containers;
  };
}

pub closed_of : (d : Container) → is_closed (some d) ≡ true → d.complete ≡ closed_channel
closed_of d h = ground (arith, h)

module _ {S : Type 0} (sys : System S) (max : ℕ) (n : Net S) (i : ℕ) where
  goes_arrived :
      (r : Request)
      → IsConsistent sys max n
      → get_elem? n.handlers i ≡ some (arrived r)
      → IsConsistent sys max (advance_at sys i (some (arrived r)) n)
  unfolding advance acquire
  goes_arrived r v e =
      elim (dec_lt (length n.world.manager.limiter) n.world.manager.max_concurrent_containers) [
        | yes free ↦
            let m = n.world.manager in
            let w : World S = record n.world {
              manager = record m { limiter = m.limiter ++ r.id ∷ [] };
            } in
            let taken : advance sys (arrived r) n.world ≡ (entered r, w) = ground arith in
            rw taken (
              kept-IsConsistent sys max n i (arrived r) (entered r) w v e (inl refl) tt refl refl
                (omega (arith, length-append m.limiter (r.id ∷ [])))
                (omega (arith, length-append m.limiter (r.id ∷ []), v.limit)))
        | no full ↦
            let waits : advance sys (arrived r) n.world ≡ (arrived r, n.world) = ground arith in
            rw waits (
              kept-IsConsistent sys max n i (arrived r) (arrived r) n.world v e (inl refl) tt refl
                refl (omega arith) v.limited)
      ]

  ran :
      (r : Request)
      → IsConsistent sys max n
      → get_elem? n.handlers i ≡ some (entered r)
      → (x : Outcome (Option Error × Container) × S)
      → run sys (new_sandbox_container r) n.world.machine ≡ x
      → ((d : Container) (s : S)
          → x ≡ (ok (none, d), s)
          → All (λ p. owned p ≢ some d.id) n.handlers)
      → let (p', w) = after_run sys n.world x in
        IsConsistent sys max (record { handlers = set i p' n.handlers; world = w })
  ran r v e (ok (none, d), s) h fresh =
      moved-IsConsistent sys max n i (entered r) (Phase.launched d) (record n.world { machine = s })
        (λ p. owned p ≢ some d.id) v e (fresh d s refl) (λ q f g id k l. g (l ∙ sym k)) (λ q f g. g)
        (launched r n.world.machine s d h) refl refl v.limited v.reached
  ran r v e (ok (some f, d), s) h fresh =
      kept-IsConsistent sys max n i (entered r) (failed f) (record n.world { machine = s }) v e
        (inl refl) tt refl refl refl v.limited
  ran r v e (err f, s) h fresh =
      kept-IsConsistent sys max n i (entered r) (failed f) (record n.world { machine = s }) v e
        (inl refl) tt refl refl refl v.limited
  ran r v e (panic f, s) h fresh =
      kept-IsConsistent sys max n i (entered r) (stopped f) (record n.world { machine = s }) v e
        (inl refl) tt refl refl refl v.limited
  ran r v e (blocks, s) h fresh =
      kept-IsConsistent sys max n i (entered r) hung (record n.world { machine = s }) v e (inl refl)
        tt refl refl refl v.limited

  goes_launched :
      (d : Container)
      → IsConsistent sys max n
      → get_elem? n.handlers i ≡ some (Phase.launched d)
      → IsConsistent sys max (advance_at sys i (some (Phase.launched d)) n)
  unfolding advance store
  goes_launched d v e =
      moved-IsConsistent sys max n i (Phase.launched d) (waiting d.id) (store sys d n.world)
        (λ p. Unit {0}) v e (anyone sys n.handlers) (λ q f g. f)
        (λ q f.
          Fits-known sys n.world.manager (store sys d n.world).manager q
            (λ id o h. insert-known d.id id d n.world.manager.containers h))
        (d, lookup-insert_same d.id d n.world.manager.containers) refl refl v.limited
        (insert-All (λ k. Reached sys) d.id d n.world.manager.containers
          (λ j. All-get (Fits sys n.world.manager) i (Phase.launched d) n.handlers e v.fitting)
          v.reached)

  limiter-taken :
      (id : Text)
      → IsConsistent sys max n
      → get_elem? n.handlers i ≡ some (waiting id)
      → (k : Text) × (ks : List Text) × (n.world.manager.limiter ≡ k ∷ ks)
  limiter-taken id v e = from_slots n.world.manager.limiter refl
    where
      from_slots :
          (ks : List Text)
          → n.world.manager.limiter ≡ ks
          → (k : Text) × (ks : List Text) × (n.world.manager.limiter ≡ k ∷ ks)
      from_slots [] h =
          absurd (omega (arith, v.slots, ap length h, sum_of-get slot i (waiting id) n.handlers e))
      from_slots (k ∷ ks) h = (k, ks, h)

  pub goes_closed :
      (id : Text) (d : Container)
      → IsConsistent sys max n
      → get_elem? n.handlers i ≡ some (waiting id)
      → get_container n.world.manager id ≡ some d
      → d.complete ≡ closed_channel
      → (response : Response) × (get_response d ≡ ok response)
        × (advance sys (waiting id) n.world ≡ (answered response, without id n.world))
  unfolding advance remove_container get_manager_response
  goes_closed id d v e h c =
      let (response, r) =
        get_response_total sys d
          (lookup-All (λ k. Reached sys) id n.world.manager.containers h v.reached) in
      let (k, ks, l) = limiter-taken id v e in (response, r, ground (arith, h, c, l, r))

  answered-IsConsistent :
      (id : Text) (response : Response)
      → IsConsistent sys max n
      → get_elem? n.handlers i ≡ some (waiting id)
      → IsConsistent sys max
          (record { handlers = set i (answered response) n.handlers; world = without id n.world })
  answered-IsConsistent id response v e =
      let (k, ks, l) = limiter-taken id v e in
      let shorter : suc (length (drop 1 n.world.manager.limiter)) ≡ length n.world.manager.limiter =
        rw l in
      moved-IsConsistent sys max n i (waiting id) (answered response) (without id n.world)
        (λ p. Unit {0}) v e (anyone sys n.handlers) (λ q f g. λ j h. absurd (cc h))
        (λ q differs. Fits-known sys n.world.manager (without id n.world).manager q (λ j o.
          delete-known id j n.world.manager.containers
            (λ same_id. differs id refl (o ∙ ap some (sym same_id)))))
        tt refl (omega (arith, shorter)) (omega (arith, shorter, v.limited))
        (delete-All (λ k. Reached sys) id n.world.manager.containers v.reached)

  pub waits :
      (id : Text)
      → is_closed (get_container n.world.manager id) ≡ false
      → advance sys (waiting id) n.world ≡ (waiting id, n.world)
  unfolding advance
  waits id o = rw o

  goes_waiting :
      (id : Text)
      → IsConsistent sys max n
      → get_elem? n.handlers i ≡ some (waiting id)
      → IsConsistent sys max (advance_at sys i (some (waiting id)) n)
  goes_waiting id v e =
      let (d, h) = All-get (Fits sys n.world.manager) i (waiting id) n.handlers e v.fitting in
      elim (Bool-cases (is_closed (get_container n.world.manager id))) [
        | inl c ↦
            let (response, _, answers) =
              goes_closed id d v e h (closed_of d (ap is_closed (sym h) ∙ c)) in
            rw answers (answered-IsConsistent id response v e)
        | inr o ↦ rw (waits id o) (
            kept-IsConsistent sys max n i (waiting id) (waiting id) n.world v e (inl refl) (d, h)
              refl refl refl v.limited)
      ]

  stays :
      (p : Phase)
      → IsConsistent sys max n
      → get_elem? n.handlers i ≡ some p
      → IsConsistent sys max (record { handlers = set i p n.handlers; world = n.world })
  stays p v e =
      kept-IsConsistent sys max n i p p n.world v e (inl refl)
        (All-get (Fits sys n.world.manager) i p n.handlers e v.fitting) refl refl refl v.limited

  pub goes_from :
      (p : Phase)
      → IsConsistent sys max n
      → get_elem? n.handlers i ≡ some p
      → IsFresh sys (goes i) n
      → IsConsistent sys max (advance_at sys i (some p) n)
  unfolding advance
  goes_from (arrived r) v e fresh = goes_arrived r v e
  goes_from (entered r) v e fresh =
      ran r v e (run sys (new_sandbox_container r) n.world.machine) refl (λ d s. fresh r d s e)
  goes_from (Phase.launched d) v e fresh = goes_launched d v e
  goes_from (waiting id) v e fresh = goes_waiting id v e
  goes_from (answered r) v e fresh = stays (answered r) v e
  goes_from (timed_out id) v e fresh = stays (timed_out id) v e
  goes_from (failed f) v e fresh = stays (failed f) v e
  goes_from (stopped f) v e fresh = stays (stopped f) v e
  goes_from hung v e fresh = stays hung v e

  pub expires_from :
      (p : Phase)
      → IsConsistent sys max n
      → get_elem? n.handlers i ≡ some p
      → IsConsistent sys max (time_out_at sys i (some p) n)
  expires_from (waiting id) v e =
      kept-IsConsistent sys max n i (waiting id) (timed_out id) n.world v e (inl refl)
        (All-get (Fits sys n.world.manager) i (waiting id) n.handlers e v.fitting) refl refl refl
        v.limited
  expires_from (arrived r) v e = stays (arrived r) v e
  expires_from (entered r) v e = stays (entered r) v e
  expires_from (Phase.launched d) v e = stays (Phase.launched d) v e
  expires_from (answered r) v e = stays (answered r) v e
  expires_from (timed_out id) v e = stays (timed_out id) v e
  expires_from (failed f) v e = stays (failed f) v e
  expires_from (stopped f) v e = stays (stopped f) v e
  expires_from hung v e = stays hung v e
