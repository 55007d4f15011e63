-- ===== src/AsyncIsle.antt =====
-- src/async_isle.rs and src/async_task.rs: an isle on a tokio runtime of its own, its thread and its
-- tasks. The channel of requests is the list of those that were sent and not received, with its
-- receiver and the count of its senders; whether tokio has room for one more is an argument. A reply and
-- a token are named by their addresses, and `T` is what a request returns. A task is not
-- polled after it was ready, and no task of the `LocalSet` but the receive loop and the requests is modelled.
pub mod Runs
pub mod Bodies
pub mod Steps
pub mod Effects
pub mod Answers
pub mod Rounds
pub mod Order
pub mod Ends
pub mod Functions
mod Tests
use mlua_isle.Base.{
  String, ℕ, zero, suc, ◌+◌, ◌-◌, Bool, true, false, ◌&&◌, List, [], ◌∷◌, ◌++◌, Option, none, some,
  Result, ok, err, Poll, ready, pending, if◌then◌else◌, update, not, ◌==◌,
}
use mlua_isle.Tokio.{Notify}
use mlua_isle.Error.{IsleError}
use mlua_isle.Error.Convert.{Mlua, MluaError, External, external_error, from_mlua}
use mlua_isle.Cancel.{Tree, new, cancel}
use mlua_isle.Handle.{
  Thread, serving, stopped, panicked, is_serving, Reply, Outcome, returns, panics,
}

-- `submit_sync` makes a job that runs in the receive loop, `submit_coroutine` one that spawns a task.
pub data Job : Type 0 where
  sync coroutine : Job

pub data Request : Type 0 where
  run : Job → (job : ℕ) → (cancel : ℕ) → Request
  shutdown_request : Request

-- `receiver`: whether the receive loop runs. `coroutines`: the tasks of the requests that were spawned
-- and have not ended. `done`: whether its sender sent, once it is gone.
pub record AsyncIsle (N : Notify) (T : Type 0) : Type 0 where
  pub tree : Tree N
  pub queue : List Request
  pub receiver : Bool
  pub senders : ℕ
  pub coroutines : List ℕ
  pub thread : Thread
  pub done : Option Bool
  pub reply : ℕ → Reply T
  pub next_reply : ℕ

pub record AsyncTask : Type 0 where
  pub rx : ℕ
  pub cancel : ℕ
  pub released : Bool

-- `AsyncIsleDriver::shutdown`: before its request is sent, after that, and once it has returned.
pub data Shutdown : Type 0 where
  sending waiting returned : Shutdown

-- The replies of the requests that are queued.
abbrev pub jobs : List Request → List ℕ
jobs [] = []
jobs (run j r n ∷ rs) = r ∷ jobs rs
jobs (shutdown_request ∷ rs) = jobs rs

unfoldable pub new_task : ℕ → ℕ → AsyncTask
new_task rx n = record { rx = rx; cancel = n; released = false }

-- Jobs that are dropped drop the senders of their replies.
abbrev pub drop_senders : {T : Type 0} → List ℕ → (ℕ → Reply T) → ℕ → Reply T
drop_senders [] reply = reply
drop_senders (r ∷ rs) reply = drop_senders rs (update reply r (record (reply r) { sender = false }))

abbrev pub without : ℕ → List ℕ → List ℕ
without r [] = []
without r (x ∷ xs) = if r == x then xs else x ∷ without r xs

abbrev pub member : ℕ → List ℕ → Bool
member r [] = false
member r (x ∷ xs) = if r == x then true else member r xs

unfoldable pub try_send_to_isle_error : (receiver : Bool) → IsleError
try_send_to_isle_error true = IsleError.channel_full
try_send_to_isle_error false = IsleError.shutdown

-- What `shutdown` makes of `done_rx` and of the join, which blocks until the thread has ended.
unfoldable pub join_result : Bool → Thread → Poll (Option IsleError)
join_result done serving = pending
join_result done (panicked m) = ready (some (IsleError.thread_panic m))
join_result true stopped = ready none
join_result false stopped = ready (some (IsleError.thread_panic none))

module _ {N : Notify} {T : Type 0} where
  abbrev pub set_reply : AsyncIsle N T → ℕ → Reply T → AsyncIsle N T
  set_reply w r v = record w { reply = update w.reply r v }

  -- `AsyncIsle::clone`, and the drop of a handle or of the driver.
  unfoldable pub clone : AsyncIsle N T → AsyncIsle N T
  clone w = record w { senders = suc w.senders }

  unfoldable pub drop_sender : AsyncIsle N T → AsyncIsle N T
  drop_sender w = record w { senders = w.senders - 1 }

  -- A task whose answer is there at once.
  unfoldable pub make_error_task : IsleError → ℕ → AsyncIsle N T → AsyncIsle N T × AsyncTask
  unfolding new_task
  make_error_task e n w =
      let r = w.next_reply in
      (
        record w {
          next_reply = suc r;
          reply = update w.reply r (record { value = some (err e); sender = false });
        },
        new_task r n,
      )

  -- `room`: whether the channel has room for the request.
  unfoldable pub submit : Job → (room : Bool) → AsyncIsle N T → AsyncIsle N T × AsyncTask
  unfolding new_task make_error_task try_send_to_isle_error
  submit j room w =
      let (tree, n) = new w.tree in
      let r = w.next_reply in
      if w.receiver && room
      then (
        record w {
          tree = tree;
          queue = w.queue ++ run j r n ∷ [];
          next_reply = suc r;
          reply = update w.reply r (record { value = none; sender = true });
        },
        new_task r n,
      )
      else make_error_task (try_send_to_isle_error w.receiver) n (record w { tree = tree })

  -- The receive loop ends, and its end of the channel is dropped with what was not received.
  unfoldable pub close : AsyncIsle N T → AsyncIsle N T
  close w = record w { receiver = false; queue = []; reply = drop_senders (jobs w.queue) w.reply }

  -- The answer of a request: its result is sent, or its sender is dropped by a panic.
  abbrev pub answer : ℕ → Outcome (Result T IsleError) → AsyncIsle N T → AsyncIsle N T
  answer r (returns v) w = set_reply w r (record { value = some v; sender = false })
  answer r (panics m) w = set_reply w r (record (w.reply r) { sender = false })

  -- A job that the receive loop runs; a panic ends the loop.
  abbrev pub run_job : Job → ℕ → Outcome (Result T IsleError) → AsyncIsle N T → AsyncIsle N T
  run_job coroutine r out w = record w { coroutines = r ∷ w.coroutines }
  run_job sync r (returns v) w = answer r (returns v) w
  run_job sync r (panics m) w = close (answer r (panics m) w)

  -- One round of the loop of `run_async_loop`; `out` is what a sync job does.
  unfoldable pub receive : Outcome (Result T IsleError) → AsyncIsle N T → AsyncIsle N T
  unfolding close
  receive out w =
      if w.receiver
      then elim w.queue [
        | [] ↦ if w.senders == 0 then close w else w
        | shutdown_request ∷ rest ↦ close (record w { queue = rest })
        | run j r n ∷ rest ↦ run_job j r out (record w { queue = rest })
      ]
      else w

  -- The task of a coroutine request ends; a panic ends only it.
  unfoldable pub finish : ℕ → Outcome (Result T IsleError) → AsyncIsle N T → AsyncIsle N T
  finish r out w =
      if member r w.coroutines
      then answer r out (record w { coroutines = without r w.coroutines })
      else w

  -- `block_on` returns once every local task has ended; `out` is what the drop of the runtime does.
  unfoldable pub end_thread : Outcome Unit → AsyncIsle N T → AsyncIsle N T
  end_thread out w =
      if is_serving w.thread && not w.receiver
      then elim w.coroutines [
        | [] ↦ elim out [
          | returns u ↦ record w { thread = stopped; done = some true }
          | panics m ↦ record w { thread = panicked m; done = some false }
        ]
        | r ∷ rs ↦ w
      ]
      else w

  -- `AsyncTask::poll`.
  unfoldable pub poll :
      AsyncTask → AsyncIsle N T → AsyncIsle N T × AsyncTask × Poll (Result T IsleError)
  poll t w = elim (w.reply t.rx).value [
    | some v ↦ (
      set_reply w t.rx (record (w.reply t.rx) { value = none }),
      record t { released = true },
      ready v,
    )
    | none ↦
        if (w.reply t.rx).sender
        then (w, t, pending)
        else (w, record t { released = true }, ready (err IsleError.recv_failed))
  ]

  unfoldable pub cancel_task : AsyncTask → AsyncIsle N T → AsyncIsle N T
  cancel_task t w = record w { tree = cancel t.cancel w.tree }

  -- `Drop for AsyncTask`.
  unfoldable pub drop : AsyncTask → AsyncIsle N T → AsyncIsle N T
  unfolding cancel_task
  drop t w = if t.released then w else cancel_task t w

  -- `AsyncTask::detach` with the drop that follows it.
  unfoldable pub detach : AsyncTask → AsyncIsle N T → AsyncIsle N T
  unfolding drop
  detach t w = drop (record t { released = true }) w

  unfoldable pub is_alive : AsyncIsle N T → Bool
  is_alive w = w.receiver

  unfoldable pub driver_is_alive : AsyncIsle N T → Bool
  driver_is_alive w = is_serving w.thread

  unfoldable pub joined : AsyncIsle N T → Poll (Option IsleError)
  unfolding join_result
  joined w = elim w.done [ none ↦ pending | some done ↦ join_result done w.thread ]

  -- The driver goes when `shutdown` returns.
  unfoldable pub await_done : AsyncIsle N T → AsyncIsle N T × Shutdown × Poll (Option IsleError)
  unfolding joined drop_sender
  await_done w = elim (joined w) [
    | pending ↦ (w, waiting, pending)
    | ready r ↦ (drop_sender w, returned, ready r)
  ]

  -- One poll of `AsyncIsleDriver::shutdown`, whose send waits for room.
  unfoldable pub shutdown :
      (room : Bool) → Shutdown → AsyncIsle N T → AsyncIsle N T × Shutdown × Poll (Option IsleError)
  unfolding await_done
  shutdown room sending w =
      if w.receiver
      then (if room
          then await_done (record w { queue = w.queue ++ shutdown_request ∷ [] })
          else (w, sending, pending))
      else await_done w
  shutdown room waiting w = await_done w
  shutdown room returned w = (w, returned, pending)
