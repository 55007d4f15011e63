-- ===== src/TaskLib.antt =====
-- src/task_lib.rs: the registry of the tasks of `task.spawn`, and the handles that Lua code has. A handle
-- is named by the id that it holds: `task.spawn` makes one for each, and Lua code does not write its
-- fields. `grace` is that of the configuration, and `current` of the world the scope of the call. An
-- error that Lua code raises is the runtime error that mlua makes of it, without its position, and the
-- wrapper of the body of a task is built without an error.
pub mod Runs
pub mod Channels
pub mod Undo
pub mod Sound
pub mod Once
mod Tests
use mlua_isle.Base.{
  ℕ, suc, Bool, true, false, ◌&&◌, List, [], ◌∷◌, Option, none, some, Result, ok, err, Poll, ready,
  pending, if◌then◌else◌, update, String,
}
use mlua_isle.Tokio.{Notify}
use mlua_isle.Cancel.{is_cancelled}
use mlua_isle.Error.Convert.{Mlua, MluaError, runtime_error, is_cancel}
use mlua_isle.Protect.{Lua, Value, boolean, error}
use mlua_isle.Scope.{World, spawn, finish, cancel_token}

abbrev pub Values : Type 0
Values = List Value

-- The VM: its scopes, the registry (the task of each id, the next id), and the `_joined` of each handle.
pub record Vm (N : Notify) : Type 0 where
  pub world : World N Values
  pub tasks : ℕ → Option ℕ
  pub next_id : ℕ
  pub joined : ℕ → Bool

-- The future of `join_raw` after its look at the registry.
pub record Join : Type 0 where
  pub id : ℕ
  pub task : ℕ

abbrev pub unknown : MluaError
unknown = runtime_error "unknown task"

abbrev pub already_joined : MluaError
already_joined = runtime_error "task already joined"

-- Whether the wrapped body says that it failed.
abbrev pub failed : Values → Bool
failed (boolean false ∷ vs) = true
failed vs = false

-- What the result slot of a task gets: `out` is what its future gave, nothing where it was dropped, and
-- `cancelled` whether its token is.
unfoldable pub conv : Option (Result Values MluaError) → (cancelled : Bool) → Option Values
conv none cancelled = none
conv (some (ok values)) cancelled = if failed values && cancelled then none else some values
conv (some (err e)) true = none
conv (some (err e)) false = some (boolean false ∷ error e ∷ [])

-- `cancelled_values`, for the table `task.CANCELLED`.
abbrev pub cancelled_values : (marker : Value) → Values
cancelled_values marker = boolean false ∷ marker ∷ []

abbrev pub values_of : (marker : Value) → Option Values → Values
values_of marker none = cancelled_values marker
values_of marker (some values) = values

-- `task.is_cancelled`.
unfoldable pub is_cancel_value : Lua → (marker : Value) → Value → Bool
is_cancel_value L marker (error e) =
    if L.rawequal (error e) marker then true else is_cancel L.mlua e
is_cancel_value L marker v = L.rawequal v marker

module _ {N : Notify} where
  -- `Registry::get`.
  unfoldable pub get : ℕ → Vm N → Result ℕ MluaError
  get id vm = elim (vm.tasks id) [ none ↦ err unknown | some t ↦ ok t ]

  unfoldable pub forget : ℕ → Vm N → Vm N
  forget id vm = record vm { tasks = update vm.tasks id none }

  unfoldable pub restore : ℕ → ℕ → Vm N → Vm N
  restore id t vm = record vm { tasks = update vm.tasks id (some t) }

  -- `spawn_raw` with the handle of `task.spawn`.
  unfoldable pub spawn_task : (grace : ℕ) → Vm N → Vm N × Result ℕ MluaError
  unfolding spawn
  spawn_task grace vm = elim vm.world.current [
    | none ↦ (
      vm,
      err (
          runtime_error
            "task.spawn: not inside a coroutine request or task (sync requests cannot spawn)"),
    )
    | some scope ↦
        let (w, t) = spawn grace scope vm.world in
        let id = vm.next_id in
        (
          record {
            world = w;
            tasks = update vm.tasks id (some t);
            next_id = suc id;
            joined = update vm.joined id false;
          },
          ok id,
        )
  ]

  -- The end of the future of a task.
  unfoldable pub end_task : ℕ → Option (Result Values MluaError) → Vm N → Vm N
  unfolding conv finish
  end_task t out vm =
      let w = vm.world in
      let v = conv out (is_cancelled (w.task t).token w.tree) in
      record vm { world = finish t (record w { result = update w.result t v }) }

  -- `Task:join` up to the wait of `join_raw`.
  unfoldable pub join : ℕ → Vm N → Vm N × Result Join MluaError
  unfolding get
  join id vm = if vm.joined id then (vm, err already_joined) else (
    record vm { joined = update vm.joined id true },
    elim (get id vm) [ err e ↦ err e | ok t ↦ ok (record { id = id; task = t }) ],
  )

  -- The result of a task is taken, and the registry forgets it.
  unfoldable pub take_result : ℕ → ℕ → (marker : Value) → Vm N → Vm N × Values
  unfolding forget
  take_result id t marker vm =
      let w = vm.world in
      (
        forget id (record vm { world = record w { result = update w.result t none } }),
        values_of marker (w.result t),
      )

  -- One poll of `join_raw`.
  unfoldable pub poll_join : Join → (marker : Value) → Vm N → Vm N × Poll Values
  unfolding take_result
  poll_join j marker vm =
      if (vm.world.task j.task).done
      then (let (u, values) = take_result j.id j.task marker vm in (u, ready values))
      else (vm, pending)

  unfoldable pub cancel_raw : ℕ → Vm N → Vm N × Option MluaError
  unfolding get
  cancel_raw id vm = elim (get id vm) [
    | err e ↦ (vm, some e)
    | ok t ↦ (record vm { world = cancel_token (vm.world.task t).token vm.world }, none)
  ]

  -- `Task:cancel`.
  unfoldable pub cancel : ℕ → Vm N → Vm N × Option MluaError
  unfolding cancel_raw
  cancel id vm = if vm.joined id then (vm, none) else cancel_raw id vm

  -- `Task:done`.
  unfoldable pub done : ℕ → Vm N → Result Bool MluaError
  unfolding get
  done id vm =
      if vm.joined id
      then ok true
      else elim (get id vm) [ err e ↦ err e | ok t ↦ ok (vm.world.task t).done ]

  -- `__close` up to the wait of its join, which a handle that was joined has not.
  unfoldable pub close : ℕ → Vm N → Vm N × Option (Result Join MluaError)
  unfolding cancel_raw join
  close id vm =
      if vm.joined id
      then (vm, none)
      else (let (u, cancelled) = cancel_raw id vm in
          elim cancelled [
            | some e ↦ (u, some (err e))
            | none ↦ let (v, j) = join id u in (v, some j)
          ])

  -- `__gc`, with `release_raw`.
  unfoldable pub collect : ℕ → Vm N → Vm N
  unfolding forget
  collect id vm = if vm.joined id then vm else elim (vm.tasks id) [
    | none ↦ vm
    | some t ↦ forget id (record vm { world = cancel_token (vm.world.task t).token vm.world })
  ]

  -- `task_case` of `Task:on` and `Task:arm`.
  unfoldable pub task_case : ℕ → Vm N → Result ℕ MluaError
  unfolding get
  task_case id vm = if vm.joined id then err already_joined else get id vm

  -- A select chooses the case of a task, and gives the task back.
  unfoldable pub choose : ℕ → ℕ → (marker : Value) → Vm N → Vm N × Result Values MluaError
  unfolding take_result
  choose id t marker vm =
      if vm.joined id
      then (vm, err already_joined)
      else (let (u, values) = take_result id t marker vm in
          (record u { joined = update u.joined id true }, ok values))

  unfoldable pub give_back : ℕ → ℕ → Option Values → Vm N → Vm N
  unfolding restore
  give_back id t taken vm =
      let w = vm.world in
      restore id t (record vm {
        world = record w { result = update w.result t taken };
        joined = update vm.joined id false;
      })
