-- ===== src/TaskLib/Tests.antt =====
-- src/task_lib.rs: two tasks, one joined and one chosen by a select that gives it back, at concrete calls.
use mlua_isle.Base.{none, ◌+◌, ◌≡◌, ◌≤◌, refl, true, List, [], ◌∷◌, some, ok, err, count, arith}
use mlua_isle.Cancel.Tests.{list_notify}
use mlua_isle.Protect.{nil, boolean}
use mlua_isle.Chan.Tests.{sample_env}
use mlua_isle.Select.{TaskArm, SelectFuture, task, fired}
use mlua_isle.Select
use mlua_isle.Select.Tests.{world}
use mlua_isle.TaskLib.Channels.{handler_failed}
use mlua_isle.TaskLib.Undo.{handler_failed_restores}
use mlua_isle.Scope.{World, spawn, out_of_time, new_task, start_body, add, finish, new_scope}
use mlua_isle.Scope.Runs.{no_scopes, start_root}
use mlua_isle.TaskLib.{
  Values, join, already_joined, spawn_task, end_task, poll_join, choose, task_case, give_back,
}
use mlua_isle.TaskLib.Runs.{
  System, Event, spawns, ends, joins, polls, arms, chooses, gives_back, step, exec, no_tasks,
}
use mlua_isle.TaskLib.Sound.{one_if_some}
use mlua_isle.TaskLib.Once.{delivered_once, join_knows}

-- A world with a scope, which is the current one.
abbrev in_scope : World list_notify Values
in_scope = record (start_root 5 (no_scopes list_notify Values)).world { current = some 0 }

abbrev events : List (Event list_notify)
events =
    spawns 5
    ∷ spawns 5
    ∷ joins 0
    ∷ ends 0 (some (ok (boolean true ∷ [])))
    ∷ polls 0
    ∷ ends 1 (some (ok (boolean true ∷ [])))
    ∷ arms 1
    ∷ chooses 1
    ∷ gives_back 1 (some (boolean true ∷ []))
    ∷ []

abbrev after : System list_notify
after = exec nil (no_tasks in_scope) events

delivered_once_example : count 0 after.taken + one_if_some (after.waits 0) ≤ 1
delivered_once_example = delivered_once nil in_scope events 0

two_ids : after.vm.next_id ≡ 2
unfolding exec step spawn_task spawn out_of_time new_task start_body add finish new_scope start_root
    end_task join poll_join task_case choose give_back
two_ids = refl

join_knows_example :
    ((join 1 after.vm).1 ≡ ok (record { id = 1; task = after.spawned 1 }))
    × ((join 1 (join 1 after.vm).0).1 ≡ err already_joined)
unfolding exec step spawn_task spawn out_of_time new_task start_body add finish new_scope start_root
    end_task join poll_join task_case choose give_back
join_knows_example = join_knows nil in_scope events 1 (omega (arith, two_ids)) refl refl

-- The first was delivered, and the second is known again.
delivered : (after.taken ≡ 0 ∷ []) × (after.vm.tasks 1 ≡ some 1)
unfolding exec step spawn_task spawn out_of_time new_task start_body add finish new_scope start_root
    end_task join poll_join task_case choose give_back
delivered = (refl, refl)

abbrev chosen_arm : TaskArm sample_env
chosen_arm = record { id = 3; waiting = none; taken = none }

abbrev chosen_select : SelectFuture sample_env
chosen_select = record { arms = task (Select.join chosen_arm world).1 ∷ []; start = 0; mark = 0 }

handler_failed_restores_example :
    (handler_failed sample_env 0 fired chosen_select (Select.join chosen_arm world).0).0.tasks 3
    ≡ world.tasks 3
handler_failed_restores_example =
    handler_failed_restores sample_env chosen_arm world fired 0 chosen_select 3 refl refl refl
