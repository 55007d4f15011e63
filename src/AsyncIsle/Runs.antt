-- ===== src/AsyncIsle/Runs.antt =====
-- src/async_isle.rs and src/async_task.rs: the tasks that use an isle, and its own, in any order.
use mlua_isle.Base.{ℕ, Bool, ◌&&◌, List, [], ◌∷◌, ◌++◌, none, Result, if◌then◌else◌}
use mlua_isle.Tokio.{Notify}
use mlua_isle.Error.{IsleError}
use mlua_isle.Cancel.Trace.{no_tokens}
use mlua_isle.Handle.{Outcome, returns, panics, serving}
use mlua_isle.AsyncIsle.{
  AsyncIsle, AsyncTask, Job, sync, coroutine, Request, run, shutdown_request, Shutdown, jobs,
  submit, clone, drop_sender, receive, finish, end_thread, poll, drop, detach, shutdown, member,
}

-- `submits`: a request is made. `clones`, `drops_sender`: a handle comes, a handle or the driver goes.
-- `receives`: a round of the receive loop. `finishes`: a coroutine request ends. `ends`: the thread does.
-- `polls`, `drops`, `detaches`: what a task does. `shuts`: a poll of the driver's `shutdown`.
pub data Event (T : Type 0) : Type 0 where
  submits : Job → (room : Bool) → Event T
  clones drops_sender : Event T
  receives : Outcome (Result T IsleError) → Event T
  finishes : ℕ → Outcome (Result T IsleError) → Event T
  ends : Outcome Unit → Event T
  polls drops detaches : AsyncTask → Event T
  shuts : (room : Bool) → Shutdown → Event T

-- The requests that were taken and those that the loop started, in their order, those that it dropped,
-- and those that ended, with a result or by a panic.
pub record System (N : Notify) (T : Type 0) : Type 0 where
  pub isle : AsyncIsle N T
  pub accepted : List ℕ
  pub started : List ℕ
  pub lost : List ℕ
  pub ended : List ℕ

abbrev pub started_by : List Request → List ℕ
started_by [] = []
started_by (shutdown_request ∷ rs) = []
started_by (run j r n ∷ rs) = r ∷ []

abbrev pub ended_by : List Request → List ℕ
ended_by [] = []
ended_by (shutdown_request ∷ rs) = []
ended_by (run sync r n ∷ rs) = r ∷ []
ended_by (run coroutine r n ∷ rs) = []

abbrev pub lost_by : {T : Type 0} → List Request → Outcome (Result T IsleError) → List ℕ
lost_by [] out = []
lost_by (shutdown_request ∷ rs) out = jobs rs
lost_by (run sync r n ∷ rs) (panics m) = jobs rs
lost_by (run sync r n ∷ rs) (returns v) = []
lost_by (run coroutine r n ∷ rs) out = []

module _ {N : Notify} {T : Type 0} where
  unfoldable pub step : System N T → Event T → System N T
  step s (submits j room) =
      let (u, t) = submit j room s.isle in
      record s {
        isle = u;
        accepted = if s.isle.receiver && room then s.accepted ++ t.rx ∷ [] else s.accepted;
      }
  step s clones = record s { isle = clone s.isle }
  step s drops_sender = record s { isle = drop_sender s.isle }
  step s (receives out) =
      let q = s.isle.queue in
      record s {
        isle = receive out s.isle;
        started = s.started ++ started_by q;
        lost = s.lost ++ lost_by q out;
        ended = s.ended ++ ended_by q;
      }
  step s (finishes r out) = record s {
    isle = finish r out s.isle;
    ended = if member r s.isle.coroutines then s.ended ++ r ∷ [] else s.ended;
  }
  step s (ends out) = record s { isle = end_thread out s.isle }
  step s (polls t) = record s { isle = (poll t s.isle).0 }
  step s (drops t) = record s { isle = drop t s.isle }
  step s (detaches t) = record s { isle = detach t s.isle }
  step s (shuts room stage) = record s { isle = (shutdown room stage s.isle).0 }

  unfoldable pub exec : List (Event T) → System N T → System N T
  exec [] s = s
  exec (e ∷ es) s = exec es (step s e)

-- An isle that has just started, with one handle and its driver.
abbrev pub started_isle : (N : Notify) (T : Type 0) → System N T
started_isle N T = record {
  isle = record {
    tree = no_tokens;
    queue = [];
    receiver = Bool.true;
    senders = 2;
    coroutines = [];
    thread = serving;
    done = none;
    reply = λ r. record { value = none; sender = Bool.false };
    next_reply = 0;
  };
  accepted = [];
  started = [];
  lost = [];
  ended = [];
}
