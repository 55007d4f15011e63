-- ===== src/AsyncIsle/Tests.antt =====
-- src/async_isle.rs: an isle with a coroutine request, a sync request and a shutdown, at concrete calls.
use mlua_isle.Base.{
  ℕ, ◌≡◌, ◌≤◌, ◌<◌, ◌⊎◌, refl, true, false, List, [], ◌∷◌, ◌++◌, none, some, Result, ok, ready,
  count,
}
use mlua_isle.Error.{IsleError}
use mlua_isle.Cancel.{new}
use mlua_isle.Cancel.Tests.{list_notify}
use mlua_isle.Handle.{returns, panics, stopped}
use mlua_isle.AsyncIsle.{
  AsyncIsle, AsyncTask, sync, coroutine, run, sending, waiting, jobs, submit, receive, finish,
  end_thread, poll, shutdown, close, new_task, await_done, joined,
}
use mlua_isle.AsyncIsle.Runs.{
  System, Event, submits, receives, finishes, ends, shuts, step, exec, started_isle,
}
use mlua_isle.AsyncIsle.Answers.{ended_polls}
use mlua_isle.AsyncIsle.Order.{starts_in_order, drains}
use mlua_isle.AsyncIsle.Ends.{drain, shutdown_ends}
use mlua_isle.AsyncIsle.Functions.{IsleFunction}

abbrev events : List (Event ℕ)
events =
    submits coroutine true
    ∷ submits sync true
    ∷ submits sync false
    ∷ receives (returns (ok 0))
    ∷ shuts true sending
    ∷ submits sync true
    ∷ receives (returns (ok 5))
    ∷ []

abbrev before_end : System list_notify ℕ
before_end = exec events (started_isle list_notify ℕ)

abbrev all_events : List (Event ℕ)
all_events =
    submits coroutine true
    ∷ submits sync true
    ∷ receives (returns (ok 0))
    ∷ shuts true sending
    ∷ submits sync true
    ∷ receives (returns (ok 5))
    ∷ receives (returns (ok 0))
    ∷ finishes 0 (panics (some "boom"))
    ∷ ends (returns tt)
    ∷ []

abbrev after : System list_notify ℕ
after = exec all_events (started_isle list_notify ℕ)

abbrev first : AsyncTask
first = record { rx = 0; cancel = 0; released = false }

ended_polls_example : (v : Result ℕ IsleError) × ((poll first after.isle).2 ≡ ready v)
unfolding exec step submit receive finish end_thread close new_task shutdown await_done joined
ended_polls_example = ended_polls list_notify all_events first refl

abbrev few : List (Event ℕ)
few = submits coroutine true ∷ submits sync true ∷ receives (returns (ok 0)) ∷ []

-- The coroutine runs, and the sync request is queued.
abbrev before : System list_notify ℕ
before = exec few (started_isle list_notify ℕ)

starts_in_order_example :
    (before.accepted ≡ before.started ++ (before.lost ++ jobs before.isle.queue))
    × (count 0 before.accepted ≤ 1)
    × (before.isle.receiver ≡ true → before.lost ≡ [])
    × ((count 0 before.started ≡ 0)
        ⊎ ((0 < count 0 before.isle.coroutines) ⊎ ((before.isle.reply 0).sender ≡ false)))
    × ((receive (returns (ok 5)) before.isle).reply 1
        ≡ record { value = some (ok 5); sender = false })
unfolding exec step submit receive close new_task
starts_in_order_example = starts_in_order list_notify few 0 (returns (ok 5))

drains_example :
    (after.accepted ≡ after.started ++ after.lost)
    × ((r : ℕ) → count r after.started ≡ count r after.ended)
unfolding exec step submit receive finish end_thread close new_task shutdown await_done joined
drains_example = drains list_notify all_events refl

shutdown_ends_example :
    ((drain (returns (ok 1) ∷ []) (λ r. returns (ok r)) before_end.isle).thread ≡ stopped)
    × ((shutdown true waiting (drain (returns (ok 1) ∷ []) (λ r. returns (ok r)) before_end.isle)).2
        ≡ ready none)
unfolding new exec step submit receive finish end_thread close new_task shutdown await_done joined
shutdown_ends_example =
    shutdown_ends [] (run sync 3 3 ∷ []) (returns (ok 1) ∷ []) (λ r. returns (ok r)) true
      before_end.isle refl refl refl

abbrev pending_isle : AsyncIsle list_notify ℕ
pending_isle = before_end.isle

abbrev foreign : IsleFunction
foreign = record { key = 4; isle = 9 }
