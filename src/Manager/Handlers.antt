-- ===== src/Manager/Handlers.antt =====
-- The handlers of internal/queue/queue.go, which run beside each other as goroutines, and the calls
-- that they make of internal/sandbox/manager.go. A handler goes on from one use of the shared
-- manager to the next, and the others go on in between; the database and the files are left out. A
-- panic ends the process: a handler that has stopped stands for it, and what the others do afterwards
-- is more than the program does.
pub mod Lists
pub mod Consistent
pub mod Steps
pub mod Answered
pub mod Lost
pub mod Owners
pub mod Progress
use cars.Base.{
  ℕ, Bool, true, false, Option, none, some, List, [], ◌∷◌, ◌++◌, Text, get_elem?, if◌then◌else◌,
}
use cars.Base.Outcome.{Outcome, ok, err, panic, blocks, Error, Fault, nil_dereference}
use cars.Sandbox.{
  System, Request, Container, Message, Response, Channel, not_made, open_channel, closed_channel,
}
use cars.Sandbox.Execute.{run, new_sandbox_container}
use cars.Manager.{
  World, acquire, store, remove_container, handle_message, get_container, get_manager_response,
}
use cars.Manager.Handlers.Lists.{set}

-- Where a handler is. `arrived` is before the send to the limiter, `entered` before `container.Run`,
-- `launched` before `containers.Store`, and `waiting` in the `select`.
pub data Phase : Type 0 where
  arrived entered : Request → Phase
  launched : Container → Phase
  waiting : Text → Phase
  answered : Response → Phase
  timed_out : Text → Phase
  failed : Error → Phase
  stopped : Fault → Phase
  hung : Phase

abbrev pub is_closed : Option Container → Bool
is_closed none = false
is_closed (some d) = elim d.complete [
  | not_made ↦ false
  | open_channel ↦ false
  | closed_channel ↦ true
]

-- The timer of the `select` fires.
abbrev pub time_out : Phase → Phase
time_out (waiting id) = timed_out id
time_out p = p

pub record Net (S : Type 0) : Type 0 where
  pub handlers : List Phase
  pub world : World S

pub data Action : Type 0 where
  arrives : Request → Action
  goes expires : ℕ → Action
  streams : Message → Action

module _ {S : Type 0} (sys : System S) where
  abbrev after_acquire : Request → Outcome (Unit {0}) × World S → Phase × World S
  after_acquire r (ok t, w) = (entered r, w)
  after_acquire r (err e, w) = (failed e, w)
  after_acquire r (panic f, w) = (stopped f, w)
  after_acquire r (blocks, w) = (arrived r, w)

  abbrev pub after_run : World S → Outcome (Option Error × Container) × S → Phase × World S
  after_run w (ok (none, d), s) = (launched d, record w { machine = s })
  after_run w (ok (some e, d), s) = (failed e, record w { machine = s })
  after_run w (err e, s) = (failed e, record w { machine = s })
  after_run w (panic f, s) = (stopped f, record w { machine = s })
  after_run w (blocks, s) = (hung, record w { machine = s })

  -- The error of `RemoveContainer` is dropped.
  abbrev after_remove : Response → Outcome (Unit {0}) × World S → Phase × World S
  after_remove response (ok t, w) = (answered response, w)
  after_remove response (err e, w) = (answered response, w)
  after_remove response (panic f, w) = (stopped f, w)
  after_remove response (blocks, w) = (hung, w)

  abbrev after_response : Text → World S → Outcome (Option Response) → Phase × World S
  after_response id w (ok none) = (stopped nil_dereference, w)
  after_response id w (ok (some response)) = after_remove response (remove_container sys id false w)
  after_response id w (err e) = (failed e, w)
  after_response id w (panic f) = (stopped f, w)
  after_response id w blocks = (hung, w)

  -- A handler goes on, or stays where it is while it has to wait.
  unfoldable pub advance : Phase → World S → Phase × World S
  advance (arrived r) w = after_acquire r (acquire sys r.id w)
  advance (entered r) w = after_run w (run sys (new_sandbox_container r) w.machine)
  advance (launched d) w = (waiting d.id, store sys d w)
  advance (waiting id) w =
      if is_closed (get_container w.manager id)
      then after_response id w (get_manager_response w.manager id)
      else (waiting id, w)
  advance p w = (p, w)

  abbrev pub advance_at : ℕ → Option Phase → Net S → Net S
  advance_at i none n = n
  advance_at i (some p) n =
      let (p', w) = advance p n.world in record { handlers = set i p' n.handlers; world = w }

  abbrev pub time_out_at : ℕ → Option Phase → Net S → Net S
  time_out_at i none n = n
  time_out_at i (some p) n = record n { handlers = set i (time_out p) n.handlers }

  -- One step of the process.
  unfoldable pub act : Action → Net S → Net S
  act (arrives r) n = record n { handlers = arrived r ∷ n.handlers }
  act (goes i) n = advance_at i (get_elem? n.handlers i) n
  act (expires i) n = time_out_at i (get_elem? n.handlers i) n
  act (streams m) n = record n { world = (handle_message sys m n.world).1 }
