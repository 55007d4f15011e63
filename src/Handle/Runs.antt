-- ===== src/Handle/Runs.antt =====
-- src/handle.rs and src/thread.rs: the threads that use an isle, and its own, in any order.
use mlua_isle.Base.{ℕ, Bool, List, [], ◌∷◌, ◌++◌, none, Result, if◌then◌else◌}
use mlua_isle.Tokio.{Notify}
use mlua_isle.Error.{IsleError}
use mlua_isle.Cancel.Trace.{no_tokens}
use mlua_isle.Handle.{
  Isle, Task, Request, Outcome, returns, panics, serving, is_serving, jobs, submit, serve, try_recv,
  drop, detach, shutdown, drop_isle, run, shutdown_request,
}

-- `submits`: a request is made. `serves`: the thread receives a request and runs it. `tries`: a task
-- looks for its reply. `drops`, `detaches`: a task goes. `shuts`, `drops_isle`: the isle goes.
pub data Event (T : Type 0) : Type 0 where
  submits : Event T
  serves : Outcome (Result T IsleError) → Event T
  tries drops detaches : Task → Event T
  shuts drops_isle : Event T

-- The requests that were taken, in their order, those whose result was sent, and those that ended
-- without one.
pub record System (N : Notify) (T : Type 0) : Type 0 where
  pub isle : Isle N T
  pub accepted : List ℕ
  pub served : List ℕ
  pub lost : List ℕ

abbrev pub served_by : {T : Type 0} → List Request → Outcome (Result T IsleError) → List ℕ
served_by (run r n ∷ rs) (returns v) = r ∷ []
served_by (run r n ∷ rs) (panics m) = []
served_by (shutdown_request ∷ rs) out = []
served_by [] out = []

abbrev pub lost_by : {T : Type 0} → List Request → Outcome (Result T IsleError) → List ℕ
lost_by (run r n ∷ rs) (returns v) = []
lost_by (run r n ∷ rs) (panics m) = r ∷ jobs rs
lost_by (shutdown_request ∷ rs) out = jobs rs
lost_by [] out = []

module _ {N : Notify} {T : Type 0} where
  unfoldable pub step : System N T → Event T → System N T
  step s submits =
      let (u, t) = submit s.isle in
      record s {
        isle = u;
        accepted = if is_serving s.isle.thread then s.accepted ++ t.rx ∷ [] else s.accepted;
      }
  step s (serves out) =
      let q = s.isle.queue in
      record s {
        isle = serve out s.isle;
        served = s.served ++ served_by q out;
        lost = s.lost ++ lost_by q out;
      }
  step s (tries t) = record s { isle = (try_recv t s.isle).0 }
  step s (drops t) = record s { isle = drop t s.isle }
  step s (detaches t) = record s { isle = detach t s.isle }
  step s shuts = record s { isle = shutdown s.isle }
  step s drops_isle = record s { isle = drop_isle s.isle }

  unfoldable pub exec : List (Event T) → System N T → System N T
  exec [] s = s
  exec (e ∷ es) s = exec es (step s e)

-- An isle that has just started.
abbrev pub started : (N : Notify) (T : Type 0) → System N T
started N T = record {
  isle = record {
    tree = no_tokens;
    queue = [];
    thread = serving;
    join = Bool.true;
    reply = λ r. record { value = none; sender = Bool.false };
    next_reply = 0;
  };
  accepted = [];
  served = [];
  lost = [];
}
