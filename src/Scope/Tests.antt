-- ===== src/Scope/Tests.antt =====
-- src/scope.rs: a root with a task and a task below it, at concrete calls.
use mlua_isle.Base.{ℕ, ◌≡◌, ◌⊎◌, refl, true, List, [], ◌∷◌, none, some, arith}
use mlua_isle.Cancel.{
  is_cancelled, cancel, cancel_in, mark, child_token, new, alloc, new_inner, add_child, sweep,
}
use mlua_isle.Cancel.Tests.{list_notify}
use mlua_isle.Cancel.Reach.{itself, below}
use mlua_isle.Scope.{
  World, closed, spawn, take_deadline, upgrade, out_of_time, is_drained, new_scope, new_task,
  start_body, add, finish, cancel_all, start_drain, ancestors_deadline, earliest_from,
}
use mlua_isle.Scope.Runs.{
  System, Event, roots, spawns, starts, sees_cancel, ends, drained, passes, no_scopes, run, step,
  start_root, start_task, register, to_stage, finish_task,
}
use mlua_isle.Scope.Structure.Steps.{closed_below}
use mlua_isle.Scope.Tokens.Steps.{ended_tasks_cancelled}

-- Scope 0 is a root, scope 1 runs task 0 below it, and scope 2 runs task 1 below scope 1.
abbrev family : List (Event ℕ)
family = roots 5 ∷ spawns 0 5 ∷ starts 1 ∷ spawns 1 5 ∷ []

abbrev endings : List (Event ℕ)
endings =
    roots 5
    ∷ spawns 0 5
    ∷ starts 1
    ∷ spawns 1 5
    ∷ starts 2
    ∷ ends 0
    ∷ sees_cancel 1
    ∷ sees_cancel 2
    ∷ ends 2
    ∷ drained 2 (some 7)
    ∷ ends 1
    ∷ drained 1 none
    ∷ drained 0 none
    ∷ []

abbrev after : List (Event ℕ) → System list_notify ℕ
after es = run (no_scopes list_notify ℕ) es

closed_below_example :
    ((after endings).world.scope 2).phase ≡ closed × (is_drained 2 (after endings).world ≡ true)
unfolding run step start_root start_task register to_stage finish_task spawn new_scope new_task
    start_body add finish cancel_all start_drain take_deadline ancestors_deadline earliest_from
    upgrade out_of_time is_drained is_cancelled cancel cancel_in mark child_token new alloc
    new_inner add_child sweep
closed_below_example =
    closed_below list_notify endings 0 2 refl (below 2 refl (below 1 refl itself)) (omega arith)
      refl

-- The root has ended, and its task has not yet seen the cancel.
abbrev ending : List (Event ℕ)
ending = roots 5 ∷ spawns 0 5 ∷ starts 1 ∷ spawns 1 5 ∷ ends 0 ∷ []

ended_tasks_cancelled_example :
    let w = (after ending).world in
    ((w.task 0).done ≡ true) ⊎ (is_cancelled (w.task 0).token w.tree ≡ true)
unfolding run step start_root start_task register to_stage finish_task spawn new_scope new_task
    start_body add finish cancel_all start_drain take_deadline ancestors_deadline earliest_from
    upgrade out_of_time is_drained is_cancelled cancel cancel_in mark child_token new alloc
    new_inner add_child sweep
ended_tasks_cancelled_example =
    ended_tasks_cancelled list_notify ending 0 0 (omega arith) (λ e. absurd (ground (arith, e)))
      (ground arith)

-- Three ticks later.
abbrev late : World list_notify ℕ
late = (after (roots 5 ∷ spawns 0 5 ∷ starts 1 ∷ spawns 1 9 ∷ ends 0 ∷ passes 3 ∷ [])).world
