-- ===== src/Handle/Tests.antt =====
-- src/handle.rs: an isle with three requests, of which the second panics, at concrete calls.
use mlua_isle.Base.{
  ℕ, ◌≡◌, ◌≤◌, ◌⊎◌, refl, false, List, [], ◌∷◌, ◌++◌, some, Result, ok, ready, count,
}
use mlua_isle.Error.{IsleError}
use mlua_isle.Cancel.{new}
use mlua_isle.Cancel.Tests.{list_notify}
use mlua_isle.Handle.{
  Task, returns, panics, is_serving, jobs, submit, serve, wait, new_task, send, exit,
}
use mlua_isle.Handle.Runs.{System, Event, submits, serves, step, exec, started}
use mlua_isle.Handle.Answers.{ended_answers}
use mlua_isle.Handle.Order.{answers_in_order}

abbrev three : List (Event ℕ)
three =
    submits
    ∷ submits
    ∷ submits
    ∷ serves (returns (ok 7))
    ∷ serves (panics (some "boom"))
    ∷ submits
    ∷ []

abbrev after : System list_notify ℕ
after = exec three (started list_notify ℕ)

abbrev second : Task
second = record { rx = 1; cancel = 1; released = false }

ended_answers_example : (v : Result ℕ IsleError) × (wait second after.isle ≡ ready v)
unfolding exec step submit send serve exit new_task
ended_answers_example = ended_answers list_notify three second refl

abbrev two : List (Event ℕ)
two = submits ∷ submits ∷ serves (returns (ok 7)) ∷ []

-- The first is answered, and the second is the first of the queue.
abbrev before : System list_notify ℕ
before = exec two (started list_notify ℕ)

answers_in_order_example :
    (before.accepted ≡ before.served ++ (before.lost ++ jobs before.isle.queue))
    × (count 0 before.accepted ≤ 1)
    × ((before.lost ≡ []) ⊎ (is_serving before.isle.thread ≡ false))
    × ((count 0 before.served ≡ 0) ⊎ ((before.isle.reply 0).sender ≡ false))
    × (wait second (serve (returns (ok 9)) before.isle) ≡ ready (ok 9))
unfolding exec step submit send serve exit new_task new
answers_in_order_example = answers_in_order list_notify two 0 (returns (ok 9))

-- The first is answered, and the others are given up.
answered : (after.served ≡ 0 ∷ []) × (after.lost ≡ 1 ∷ 2 ∷ [])
unfolding exec step submit send serve exit new_task
answered = (refl, refl)
