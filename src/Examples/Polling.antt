-- ===== src/Examples/Polling.antt =====
-- A round of two messages: one is empty, and the handling of the other fails.
use mathlib.Core.List.Permᴰ
use cars.Base.{
  ◌≡◌, ◌⊎◌, refl, Bool, true, false, none, List, [], ◌∷◌, Text, txt, same, same_self, All, arith,
  if◌then◌else◌,
}
use cars.Base.Int.{pos}
use cars.Base.Outcome.{ok, external}
use cars.Queue.{Services, unparsed, handle_new_compile_request, handle_parsed}
use cars.Queue.Backends.{SqsQueue}
use cars.Queue.Polling.{SqsMessage, Messages, IsDeleting, handle_each, poll_round, poll_round_lem}
use cars.Examples.Containers.{Files, disk}
use cars.Examples.Messages.{statuses, never, loader, production}

-- The receipts that are on the queue.
abbrev Receipts : Type 0
Receipts = Text → Bool

abbrev two_messages : List SqsMessage
two_messages =
    record { receipt_handle = txt "a"; body = [] }
    ∷ record { receipt_handle = txt "b"; body = txt "{" }
    ∷ []

abbrev sqs : Messages Receipts
sqs = record {
  receive_message = λ url max wait s. ((two_messages, none), s);
  delete_message = λ url r s. (none, λ r'. if same r r' then false else s r');
}

abbrev unreadable_json : Services Files
unreadable_json = record statuses {
  unmarshal_message = λ body. unparsed (external (txt "unexpected end of JSON input"));
}

abbrev queue : SqsQueue
queue = record {
  config = record {
    queue_url = txt "https://sqs/1";
    wait_time_seconds = pos 0;
    max_in_flight = pos 10;
    consumer = true;
  };
  stop_flag = false;
}

abbrev pending : Text → Receipts → Bool
pending r s = s r

sqs-IsDeleting : IsDeleting sqs (txt "https://sqs/1") pending
sqs-IsDeleting = record {
  pending-delete = λ r s. rw (same_self r) refl;
  pending-delete_kept = λ r r' s h. ground arith;
}

abbrev both : Receipts
both r = true

ends_well :
    (poll_round disk unreadable_json never production sqs queue (λ ms. ms) (loader, both)).0 ≡ ok tt
unfolding poll_round handle_each handle_new_compile_request handle_parsed same
ends_well = refl

poll_round_lem_example :
    All
      (λ m.
        (m.body ≡ [])
        ⊎ (pending m.receipt_handle
              (poll_round disk unreadable_json never production sqs queue
                (λ ms. ms)
                (loader, both)).1.1
            ≡ false))
      two_messages
poll_round_lem_example =
    poll_round_lem disk unreadable_json never production sqs queue pending sqs-IsDeleting (λ ms. ms)
      loader both Permᴰ.refl ends_well
