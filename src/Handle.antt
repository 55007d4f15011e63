-- ===== src/Handle.antt =====
-- src/handle.rs, src/task.rs and `run_loop` of src/thread.rs: an isle, its thread and its tasks. The channel
-- of requests is the list of those that were sent and not received; the channel of a reply, and a
-- token, are named by their addresses. `T` is what a request returns. The lock of
-- the join handle is not poisoned: nothing under it panics.
pub mod Runs
pub mod Answers
pub mod Effects
pub mod Rounds
pub mod Order
mod Tests
use mlua_isle.Base.{
  String, ℕ, suc, ◌+◌, Bool, true, false, ◌&&◌, List, [], ◌∷◌, ◌++◌, Option, none, some, Result, ok,
  err, Poll, ready, pending, if◌then◌else◌, update,
}
use mlua_isle.Tokio.{Notify}
use mlua_isle.Error.{IsleError, LuaErrorKind, failure}
use mlua_isle.Error.Convert.{Mlua, MluaError, External, external_error, host, from_mlua}
use mlua_isle.Cancel.{Tree, new, cancel}

-- A job is named by the channel that its result goes to.
pub data Request : Type 0 where
  run : (job : ℕ) → (cancel : ℕ) → Request
  shutdown_request : Request

-- The thread: in its loop, ended, or ended by a panic with its message.
pub data Thread : Type 0 where
  serving stopped : Thread
  panicked : Option String → Thread

-- The channel of a reply: what was sent and not received, and whether the sender is there.
pub record Reply (T : Type 0) : Type 0 where
  pub value : Option (Result T IsleError)
  pub sender : Bool

-- `join`: whether the join handle is there.
pub record Isle (N : Notify) (T : Type 0) : Type 0 where
  pub tree : Tree N
  pub queue : List Request
  pub thread : Thread
  pub join : Bool
  pub reply : ℕ → Reply T
  pub next_reply : ℕ

pub record Task : Type 0 where
  pub rx : ℕ
  pub cancel : ℕ
  pub released : Bool

-- What Rust code that can panic does.
pub data Outcome (A : Type 0) : Type 0 where
  returns : A → Outcome A
  panics : Option String → Outcome A

abbrev pub is_serving : Thread → Bool
is_serving serving = true
is_serving stopped = false
is_serving (panicked m) = false

-- The replies of the requests that are queued.
abbrev pub jobs : List Request → List ℕ
jobs [] = []
jobs (run r n ∷ rs) = r ∷ jobs rs
jobs (shutdown_request ∷ rs) = jobs rs

unfoldable pub new_task : ℕ → ℕ → Task
new_task rx n = record { rx = rx; cancel = n; released = false }

module _ {N : Notify} {T : Type 0} where
  abbrev pub set_reply : Isle N T → ℕ → Reply T → Isle N T
  set_reply w r v = record w { reply = update w.reply r v }

  -- `tx.send`, which fails when the thread has dropped its end.
  unfoldable pub send : Request → Isle N T → Isle N T
  send q w = if is_serving w.thread then record w { queue = w.queue ++ q ∷ [] } else w

  unfoldable pub submit : Isle N T → Isle N T × Task
  unfolding send new_task
  submit w =
      let (tree, n) = new w.tree in
      let r = w.next_reply in
      let u = record w { tree = tree; next_reply = suc r } in
      if is_serving w.thread
      then (send (run r n) (set_reply u r (record { value = none; sender = true })), new_task r n)
      else (
        set_reply u r (record { value = some (err IsleError.shutdown); sender = false }),
        new_task r n,
      )

  -- Requests that are dropped drop the senders of their replies.
  abbrev pub drop_requests : List Request → Isle N T → Isle N T
  drop_requests [] w = w
  drop_requests (run r n ∷ rs) w =
      drop_requests rs (set_reply w r (record (w.reply r) { sender = false }))
  drop_requests (shutdown_request ∷ rs) w = drop_requests rs w

  -- The loop ends, and its end of the channel is dropped with what was not received.
  unfoldable pub exit : Thread → Isle N T → Isle N T
  exit t w = drop_requests w.queue (record w { thread = t; queue = [] })

  -- One round of `run_loop`; `out` is what the job does, whose result it sends.
  unfoldable pub serve : Outcome (Result T IsleError) → Isle N T → Isle N T
  unfolding exit
  serve out w = elim w.queue [
    | [] ↦ w
    | shutdown_request ∷ rest ↦ exit stopped (record w { queue = rest })
    | run r n ∷ rest ↦
        let u = record w { queue = rest } in
        elim out [
          | returns v ↦ set_reply u r (record { value = some v; sender = false })
          | panics m ↦ exit (panicked m) (set_reply u r (record (u.reply r) { sender = false }))
        ]
  ]

  -- `Task::wait`; it blocks while there is neither a value nor the end of the sender.
  unfoldable pub wait : Task → Isle N T → Poll (Result T IsleError)
  wait t w = elim (w.reply t.rx).value [
    | some v ↦ ready v
    | none ↦ if (w.reply t.rx).sender then pending else ready (err IsleError.recv_failed)
  ]

  unfoldable pub try_recv : Task → Isle N T → Isle N T × Task × Option (Result T IsleError)
  try_recv t w = elim (w.reply t.rx).value [
    | none ↦ (w, t, none)
    | some v ↦ (
      set_reply w t.rx (record (w.reply t.rx) { value = none }),
      record t { released = true },
      some v,
    )
  ]

  unfoldable pub cancel_task : Task → Isle N T → Isle N T
  cancel_task t w = record w { tree = cancel t.cancel w.tree }

  -- `Drop for Task`.
  unfoldable pub drop : Task → Isle N T → Isle N T
  unfolding cancel_task
  drop t w = if t.released then w else cancel_task t w

  -- `Task::detach` with the drop that follows it.
  unfoldable pub detach : Task → Isle N T → Isle N T
  unfolding drop
  detach t w = drop (record t { released = true }) w

  -- `Isle::shutdown` up to the join, whose handle it takes.
  unfoldable pub shutdown : Isle N T → Isle N T
  unfolding send
  shutdown w = record (send shutdown_request w) { join = false }

  -- What the join of `shutdown` gives; it blocks until the thread has ended.
  unfoldable pub joined : Isle N T → Poll (Option IsleError)
  joined w = elim w.thread [
    | serving ↦ pending
    | stopped ↦ ready none
    | panicked m ↦ ready (some (IsleError.thread_panic m))
  ]

  unfoldable pub is_alive : Isle N T → Bool
  is_alive w = w.join && is_serving w.thread

  -- `Drop for Isle`.
  unfoldable pub drop_isle : Isle N T → Isle N T
  unfolding send
  drop_isle w = send shutdown_request w

-- `Isle::spawn`: what the installation, the init closure and the attachment do on the thread, each of
-- which runs only if the one before it did not fail.
unfoldable pub init_result :
    Mlua
    → Option IsleError
    → Outcome (Option MluaError)
    → Option IsleError
    → Outcome (Option IsleError)
init_result M (some e) init attach = returns (some e)
init_result M none (panics m) attach = panics m
init_result M none (returns (some e)) attach = returns (some (IsleError.init (from_mlua M e)))
init_result M none (returns none) attach = returns attach

-- The answer of `Isle::spawn`, where `started` is the error of the start of the thread.
unfoldable pub spawn : Mlua → Option External → Outcome (Option IsleError) → Result Thread IsleError
spawn M (some e) out = err (IsleError.init (from_mlua M (external_error e)))
spawn M none (panics m) = err (IsleError.thread_panic m)
spawn M none (returns (some e)) = err e
spawn M none (returns none) = ok serving
