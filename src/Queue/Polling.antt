-- ===== src/Queue/Polling.antt =====
-- internal/queue/sqs.go: the loop that polls for messages.
use mathlib.Core.List.{Permᴰ}
use mathlib.Core.List.Permᴰ
use cars.Base.Perm.{All-perm}
use cars.Base.{
  ℕ, ◌≡◌, ◌≢◌, ◌⊎◌, inl, inr, refl, sym, subst, Bool, false, Option, List, [], ◌∷◌, Text, All,
  Bool-cases, same, same_iff, if◌then◌else◌,
}
use cars.Base.Int.{ℤ}
use cars.Base.Outcome.{Outcome, ok, err, panic, blocks, Error}
use cars.Base.State.{Exec}
use cars.Profile.{Host}
use cars.Sandbox.{System, Container}
use cars.Queue.{Services, Loader, handle_new_compile_request}
use cars.Queue.Backends.{SqsQueue}

-- `sqs.Message`, as far as it is used. The pointers that SQS gives are not nil.
pub record SqsMessage : Type 0 where
  pub receipt_handle : Text
  pub body : Text

-- The calls that the loop makes for the queue of a URL.
pub record Messages (Q : Type 0) : Type 0 where
  pub receive_message : Text → ℤ → ℤ → Q → (List SqsMessage × Option Error) × Q
  pub delete_message : Text → Text → Q → Option Error × Q

-- The messages of which a goroutine is started.
abbrev pub to_handle : List SqsMessage → List SqsMessage
to_handle [] = []
to_handle (m ∷ ms) = if same m.body [] then to_handle ms else m ∷ to_handle ms

module _ {S D Q : Type 0} (sys : System S) (services : Services D)
    (meanwhile : Container → ℕ → Loader S D → Bool × Loader S D) (host : Host) (lib : Messages Q)
    (q : SqsQueue) where
  abbrev delete_message : SqsMessage → Q → Q
  delete_message m s = (lib.delete_message q.config.queue_url m.receipt_handle s).1

  -- The end of a goroutine: the deferred deletion, also after an error, which is logged, and before a
  -- panic ends the process.
  abbrev end_message :
      SqsMessage → Outcome (Unit {0}) × Loader S D → Q → Outcome (Unit {0}) × (Loader S D × Q)
  end_message m (ok t, l) s = (ok tt, (l, delete_message m s))
  end_message m (err e, l) s = (ok tt, (l, delete_message m s))
  end_message m (panic f, l) s = (panic f, (l, delete_message m s))
  end_message m (blocks, l) s = (blocks, (l, s))

  -- A goroutine that waits lets the others go on, but not the round end.
  abbrev never_done : Outcome (Unit {0}) × (Loader S D × Q) → Outcome (Unit {0}) × (Loader S D × Q)
  never_done (panic f, w) = (panic f, w)
  never_done (_, w) = (blocks, w)

  abbrev wait_for :
      Outcome (Unit {0}) × (Loader S D × Q)
      → Outcome (Unit {0}) × (Loader S D × Q)
      → Outcome (Unit {0}) × (Loader S D × Q)
  wait_for (ok t, w) rest = rest
  wait_for (err e, w) rest = rest
  wait_for (panic f, w) rest = (panic f, w)
  wait_for (blocks, w) rest = never_done rest

  -- The goroutines of a round, in the order in which they come to handle their messages.
  unfoldable pub handle_each : List SqsMessage → Exec (Loader S D × Q) (Unit {0})
  handle_each [] w = (ok tt, w)
  handle_each (m ∷ ms) (l, s) =
      let ended =
        end_message m (handle_new_compile_request sys services meanwhile host m.body l) s in
      let rest = handle_each ms ended.1 in wait_for ended rest

  -- A round of `startPollingMessages`; an error of the call is only logged.
  unfoldable pub poll_round : (List SqsMessage → List SqsMessage) → Exec (Loader S D × Q) (Unit {0})
  unfolding handle_each
  poll_round schedule (l, s) =
      let (received, s') =
        lib.receive_message q.config.queue_url q.config.max_in_flight q.config.wait_time_seconds
          s in
      handle_each (schedule (to_handle received.0)) (l, s')

  abbrev next_round :
      Outcome (Unit {0}) × (Loader S D × Q)
      → Outcome (Unit {0}) × (Loader S D × Q)
      → Outcome (Unit {0}) × (Loader S D × Q)
  next_round (ok t, w) rest = rest
  next_round (err e, w) rest = (err e, w)
  next_round (panic f, w) rest = (panic f, w)
  next_round (blocks, w) rest = (blocks, w)

  -- `startPollingMessages`, for as many rounds as there are schedules.
  unfoldable pub start_polling_messages :
      List (List SqsMessage → List SqsMessage) → Exec (Loader S D × Q) (Unit {0})
  unfolding poll_round
  start_polling_messages [] w = (ok tt, w)
  start_polling_messages (schedule ∷ rounds) w =
      let polled = poll_round schedule w in
      let rest = start_polling_messages rounds polled.1 in
      if q.stop_flag then (ok tt, w) else next_round polled rest

-- SQS keeps the messages that are not deleted: `pending` says whether it may deliver one again.
pub record IsDeleting {Q : Type 0} (lib : Messages Q) (url : Text) (pending : Text → Q → Bool)
    : Type 0 where
  pub pending-delete : (r : Text) (s : Q) → pending r (lib.delete_message url r s).1 ≡ false
  pub pending-delete_kept :
      (r r' : Text) (s : Q)
      → pending r s ≡ false
      → pending r (lib.delete_message url r' s).1 ≡ false

module _ {S D Q : Type 0} (sys : System S) (services : Services D)
    (meanwhile : Container → ℕ → Loader S D → Bool × Loader S D) (host : Host) (lib : Messages Q)
    (q : SqsQueue) (pending : Text → Q → Bool)
    (deleting : IsDeleting lib q.config.queue_url pending) where
  end_message-kept :
      (m : SqsMessage) (r : Text) (x : Outcome (Unit {0}) × Loader S D) (s : Q)
      → pending r s ≡ false
      → pending r (end_message sys services meanwhile host lib q m x s).1.1 ≡ false
  end_message-kept m r (ok t, l) s h = deleting.pending-delete_kept r m.receipt_handle s h
  end_message-kept m r (err e, l) s h = deleting.pending-delete_kept r m.receipt_handle s h
  end_message-kept m r (panic f, l) s h = deleting.pending-delete_kept r m.receipt_handle s h
  end_message-kept m r (blocks, l) s h = h

  -- What holds at the end of the goroutine and is kept by the rest holds in the end.
  end_message-deleted :
      (m : SqsMessage) (x : Outcome (Unit {0}) × Loader S D) (s : Q)
      → (end_message sys services meanwhile host lib q m x s).0 ≢ blocks
      → pending m.receipt_handle (end_message sys services meanwhile host lib q m x s).1.1 ≡ false
  end_message-deleted m (ok t, l) s h = deleting.pending-delete m.receipt_handle s
  end_message-deleted m (err e, l) s h = deleting.pending-delete m.receipt_handle s
  end_message-deleted m (panic f, l) s h = deleting.pending-delete m.receipt_handle s
  end_message-deleted m (blocks, l) s h = absurd (h refl)

  -- A round that ends well has waited for none of its goroutines in vain.
  wait_for-ok :
      (x rest : Outcome (Unit {0}) × (Loader S D × Q))
      → (wait_for sys services meanwhile host lib q x rest).0 ≡ ok tt
      → (x.0 ≢ blocks) × (wait_for sys services meanwhile host lib q x rest ≡ rest)
  wait_for-ok (ok t, w) rest h = ((λ e. absurd (cc e)), refl)
  wait_for-ok (err e, w) rest h = ((λ e'. absurd (cc e')), refl)
  wait_for-ok (panic f, w) rest h = absurd (cc h)
  wait_for-ok (blocks, w) (ok t, w') h = absurd (cc h)
  wait_for-ok (blocks, w) (err e, w') h = absurd (cc h)
  wait_for-ok (blocks, w) (panic f, w') h = absurd (cc h)
  wait_for-ok (blocks, w) (blocks, w') h = absurd (cc h)

  handle_each-kept :
      (ms : List SqsMessage) (r : Text) (l : Loader S D) (s : Q)
      → (handle_each sys services meanwhile host lib q ms (l, s)).0 ≡ ok tt
      → pending r s ≡ false
      → pending r (handle_each sys services meanwhile host lib q ms (l, s)).1.1 ≡ false
  unfolding handle_each
  handle_each-kept [] r l s h k = k
  handle_each-kept (m ∷ ms) r l s h k =
      let handled = handle_new_compile_request sys services meanwhile host m.body l in
      let ended = end_message sys services meanwhile host lib q m handled s in
      let rest = handle_each sys services meanwhile host lib q ms ended.1 in
      let (_, e) = wait_for-ok ended rest h in
      rw e
        (handle_each-kept ms r ended.1.0 ended.1.1 (rw e at h) (end_message-kept m r handled s k))

  abbrev AllDeleted : Outcome (Unit {0}) × (Loader S D × Q) → List SqsMessage → Type 0
  AllDeleted x = All (λ m. pending m.receipt_handle x.1.1 ≡ false)

  handle_each-deleted :
      (ms : List SqsMessage) (l : Loader S D) (s : Q)
      → (handle_each sys services meanwhile host lib q ms (l, s)).0 ≡ ok tt
      → AllDeleted (handle_each sys services meanwhile host lib q ms (l, s)) ms
  unfolding handle_each
  handle_each-deleted [] l s h = tt
  handle_each-deleted (m ∷ ms) l s h =
      let handled = handle_new_compile_request sys services meanwhile host m.body l in
      let ended = end_message sys services meanwhile host lib q m handled s in
      let rest = handle_each sys services meanwhile host lib q ms ended.1 in
      let (done, e) = wait_for-ok ended rest h in
      let h' = rw e at h in
      subst (λ x. AllDeleted x (m ∷ ms)) (sym e)
        (
          handle_each-kept ms m.receipt_handle ended.1.0 ended.1.1 h'
              (end_message-deleted m handled s done),
          handle_each-deleted ms ended.1.0 ended.1.1 h',
        )

  to_handle-All :
      (P : SqsMessage → Type 0) (ms : List SqsMessage)
      → All P (to_handle ms)
      → All (λ m. (m.body ≡ []) ⊎ P m) ms
  to_handle-All P [] h = tt
  to_handle-All P (m ∷ ms) h = elim (Bool-cases (same m.body [])) [
    | inl empty ↦ (inl ((same_iff m.body []).0 empty), to_handle-All P ms (rw empty at h))
    | inr full ↦ let k = rw full at h in (inr k.0, to_handle-All P ms k.1)
  ]

  -- Let SQS delete every message that it is asked to. A round of the polling that ends well, in
  -- whatever order its goroutines come to run, has deleted every message that it has received and
  -- that is not empty, also those whose handling has failed.
  pub poll_round_lem :
      (schedule : List SqsMessage → List SqsMessage) (l : Loader S D) (s : Q)
      → ((ms : List SqsMessage) → Permᴰ ms (schedule ms))
      → let (received, s') =
          lib.receive_message q.config.queue_url q.config.max_in_flight q.config.wait_time_seconds
            s in
        let (result, w) = poll_round sys services meanwhile host lib q schedule (l, s) in
        result ≡ ok tt
        → All (λ m. (m.body ≡ []) ⊎ (pending m.receipt_handle w.1 ≡ false)) received.0
  unfolding poll_round
  poll_round_lem schedule l s fair h =
      let (received, s') =
        lib.receive_message q.config.queue_url q.config.max_in_flight q.config.wait_time_seconds
          s in
      let ms = to_handle received.0 in
      to_handle-All _ received.0
        (All-perm _ (Permᴰ.symm (fair ms)) (handle_each-deleted (schedule ms) l s' h))
