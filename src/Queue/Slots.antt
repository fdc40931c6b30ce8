-- ===== src/Queue/Slots.antt =====
-- What a handled message does to the slots of the manager.
use cars.Base.{
  ℕ, suc, ◌≡◌, ◌≢◌, ◌⊎◌, inl, inr, refl, Bool, true, false, some, [], ◌∷◌, Text, txt, length, arith,
  ap, if◌then◌else◌, length-append, ◌∙◌, Option-cases,
}
use cars.Base.Outcome.{Fault, wrap, Outcome, ok, err, panic, blocks, Error}
use cars.Compilers.{LanguageCompiler, get_compiler}
use cars.Manager.{World, add_container, remove_container}
use cars.Manager.Slots.{add_container_slot}
use cars.Profile.{Host, Profile, Globals, get_profile_for_machine}
use cars.Sandbox.{System, Request, Container}
use cars.Status.{status_string, running, created}
use cars.Queue.{
  CompileMessage, Parsed, parsed, unparsed, Services, Loader, request_of, handle_sandbox_request,
  handle_new_compile_request, handle_nsq_message, finish_wait, finish_start, with_status,
  max_timeout, handle_compiler, handle_parsed,
}

-- The slots that are taken.
abbrev pub slots : {S D : Type 0} → Loader S D → ℕ
slots l = length l.world.manager.limiter

module _ {S D : Type 0} (sys : System S) (services : Services D)
    (meanwhile : Container → ℕ → Loader S D → Bool × Loader S D) where
  -- Every wait ends in `b`, and the other goroutines leave as many slots taken as there were.
  abbrev pub AlwaysEnds : Bool → Type 0
  AlwaysEnds b =
      (d : Container) (time : ℕ) (l : Loader S D)
      → ((meanwhile d time l).0 ≡ b) × (slots (meanwhile d time l).1 ≡ slots l)

  -- A call that returns keeps its slot after a timeout or an error, and only then.
  abbrev pub KeepsSlot : Bool → ℕ → Outcome (Unit {0}) × Loader S D → Type 0
  KeepsSlot b n x =
      ((x.0 ≡ ok tt) × (slots x.1 ≡ (if b then n else suc n)))
      ⊎ ((e : Error) × (x.0 ≡ err e) × (slots x.1 ≡ suc n))
      ⊎ ((f : Fault) × (x.0 ≡ panic f))
      ⊎ (x.0 ≡ blocks)

  remove_container-slots :
      (id : Text) (w : World S) (n : ℕ)
      → length w.manager.limiter ≡ suc n
      → ((remove_container sys id false w).0 ≡ ok tt)
        × (length (remove_container sys id false w).1.manager.limiter ≡ n)
  unfolding remove_container
  remove_container-slots id w n h = ground arith

  finish_wait-KeepsSlot :
      (r : Request) (id : Text) (b : Bool) (l : Loader S D) (n : ℕ)
      → slots l ≡ suc n
      → KeepsSlot b n (finish_wait sys services meanwhile r id (b, l))
  finish_wait-KeepsSlot r id false l n h = inl (refl, h)
  finish_wait-KeepsSlot r id true l n h = ground (arith, remove_container-slots id l.world n h)

  wait-KeepsSlot :
      (r : Request) (id : Text) (b : Bool) (x : Bool × Loader S D) (n : ℕ)
      → x.0 ≡ b
      → slots x.1 ≡ suc n
      → KeepsSlot b n (finish_wait sys services meanwhile r id x)
  wait-KeepsSlot r id b (complete, l) n e h = rw e (finish_wait-KeepsSlot r id b l n h)

  finish_start-KeepsSlot :
      (b : Bool)
      → AlwaysEnds b
      → (r : Request) (g : Globals) (o : D) (x : Outcome Container × World S) (n : ℕ)
      → (x.0 ≡ blocks) ⊎ (length x.1.manager.limiter ≡ suc n)
      → KeepsSlot b n (finish_start sys services meanwhile r g o x)
  finish_start-KeepsSlot b ends r g o (ok d, w) n (inl e) = absurd (cc e)
  finish_start-KeepsSlot b ends r g o (ok d, w) n (inr h) =
      let l =
        with_status sys services meanwhile r.id (status_string running)
          (record { world = w; globals = g; outside = o }) in
      let (ended, kept) = ends d (max_timeout sys services meanwhile r) l in
      wait-KeepsSlot r d.id b (meanwhile d (max_timeout sys services meanwhile r) l) n ended
        (kept ∙ h)
  finish_start-KeepsSlot b ends r g o (err e, w) n (inl f) = absurd (cc f)
  finish_start-KeepsSlot b ends r g o (err e, w) n (inr h) =
      inr (inl (wrap (txt "failed to add container to Manager") e, refl, h))
  finish_start-KeepsSlot b ends r g o (panic p, w) n h = inr (inr (inl (p, refl)))
  finish_start-KeepsSlot b ends r g o (blocks, w) n h = inr (inr (inr refl))

  sandbox-KeepsSlot :
      (b : Bool)
      → AlwaysEnds b
      → (r : Request) (l : Loader S D)
      → KeepsSlot b (slots l) (handle_sandbox_request sys services meanwhile r l)
  unfolding handle_sandbox_request
  sandbox-KeepsSlot b ends r l =
      finish_start-KeepsSlot b ends r l.globals
        (services.update_execution_status r.id (status_string created) l.outside).1
        (add_container sys r l.world) (slots l)
        (elim (add_container_slot sys r l.world) [
          | inl (_, waits) ↦ inl (ap (λ (x : Outcome Container × World S). x.0) waits)
          | inr (_, (limiter_eq, _, _)) ↦ inr (
              omega
                (arith, ap length limiter_eq, length-append l.world.manager.limiter (r.id ∷ [])))
        ])

  compiler-KeepsSlot :
      (b : Bool)
      → AlwaysEnds b
      → (host : Host) (m : CompileMessage) (c : LanguageCompiler) (l : Loader S D) (p : Profile)
        (g : Globals)
      → get_profile_for_machine host l.globals ≡ (ok (some p), g)
      → KeepsSlot b (slots l) (handle_compiler sys services meanwhile host m (some c) l)
  unfolding handle_compiler
  compiler-KeepsSlot b ends host m c l p g h =
      rw (h, handle_compiler)
        (sandbox-KeepsSlot b ends
          (request_of services.temp_dir m c (services.files.get_file m.id c.source_file l.outside).0
            p)
          (record l { globals = g }))

  -- Take a message of a language that has a compiler, handled by a process that has a profile, while
  -- every wait ends in the same way, by the container's completion or by the timeout, and the other
  -- goroutines leave as many slots taken as they found. If the handler returns without an error,
  -- all slots that it took are free again after a completion, but after a timeout one more slot is
  -- taken than before; if it returns an error, one more slot is taken as well.
  pub handled_slots :
      (b : Bool)
      → AlwaysEnds b
      → (host : Host) (body : Text) (m : CompileMessage) (c : LanguageCompiler) (l : Loader S D)
        (p : Profile) (g : Globals)
      → services.unmarshal_message body ≡ parsed m
      → get_compiler m.language ≡ some c
      → get_profile_for_machine host l.globals ≡ (ok (some p), g)
      → let (result, l') = handle_new_compile_request sys services meanwhile host body l in
        ((result ≡ ok tt) × (slots l' ≡ (if b then slots l else suc (slots l))))
        ⊎ ((e : Error) × (result ≡ err e) × (slots l' ≡ suc (slots l)))
        ⊎ ((f : Fault) × (result ≡ panic f))
        ⊎ (result ≡ blocks)
  unfolding handle_new_compile_request
  handled_slots b ends host body m c l p g e f h =
      rw (e, handle_new_compile_request)
        (rw (f, handle_parsed) (compiler-KeepsSlot b ends host m c l p g h))

  -- The message can be handled: it parses, and its language has a compiler.
  abbrev pub IsKnown : Text → Type 0
  IsKnown body =
      (m : CompileMessage) × (c : LanguageCompiler) × (services.unmarshal_message body ≡ parsed m)
      × (get_compiler m.language ≡ some c)

  refused_compiler :
      (host : Host) (x : Parsed) (l : Loader S D)
      → ((m : CompileMessage) (c : LanguageCompiler)
          → x ≡ parsed m
          → get_compiler m.language ≢ some c)
      → let (result, l') = handle_parsed sys services meanwhile host x l in
        (l' ≡ l) × (result ≢ ok tt)
  unfolding handle_parsed handle_compiler
  refused_compiler host (unparsed e) l h = (refl, λ f. cc)
  refused_compiler host (parsed m) l h = elim (Option-cases (get_compiler m.language)) [
    | inl e ↦ rw e (refl, λ f. cc)
    | inr (c, e) ↦ absurd (h m c refl e)
  ]

  -- A message that is not empty, and that does not parse or names a language without a compiler,
  -- changes nothing, the database included, and is not handled without an error or a panic.
  pub refused_unchanged :
      (host : Host) (c : ℕ) (body : Text) (l : Loader S D)
      → ¬ IsKnown (c ∷ body)
      → let (result, l') = handle_nsq_message sys services meanwhile host (c ∷ body) l in
        (l' ≡ l) × (result ≢ ok tt)
  unfolding handle_nsq_message handle_new_compile_request
  refused_unchanged host c body l h =
      refused_compiler host (services.unmarshal_message (c ∷ body)) l (λ m k e f. h (m, k, e, f))
