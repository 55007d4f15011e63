-- ===== src/TaskLib/Runs.antt =====
-- src/task_lib.rs: what Lua code does with its handles, in any order. Between two calls the scopes of the
-- VM take any steps (`scopes`); a handle that was collected is not used.
use mlua_isle.Base.{
  ℕ, Bool, true, false, ◌&&◌, not, List, [], ◌∷◌, Option, none, some, Result, ok, err, ready,
  pending, if◌then◌else◌, update, ltb, ◌==◌,
}
use mlua_isle.Tokio.{Notify}
use mlua_isle.Error.Convert.{MluaError}
use mlua_isle.Protect.{Value}
use mlua_isle.Scope.{World}
use mlua_isle.TaskLib.{
  Values, Vm, Join, spawn_task, end_task, join, poll_join, cancel, close, collect, choose,
  task_case, give_back,
}

-- `joins`, `closes`: a call of `join` or of `__close` up to its wait. `polls`: a poll of a wait. `drops`: a
-- wait is dropped. `arms`: the case of a task is made and read. `chooses` and `gives_back`: a select takes
-- the result of a task that it has a case of, and undoes that.
pub data Event (N : Notify) : Type 0 where
  scopes : World N Values → Event N
  spawns : (grace : ℕ) → Event N
  ends : ℕ → Option (Result Values MluaError) → Event N
  joins closes polls drops cancels collects : ℕ → Event N
  arms chooses : ℕ → Event N
  gives_back : ℕ → Option Values → Event N

-- `waits`: the join that waits for an id. `taken`: the ids whose result was delivered, by joins and selects.
-- `arm`: the task of the cases of an id. `spawned`: the task that each id was made for. `gone`: the handles that were collected.
pub record System (N : Notify) : Type 0 where
  pub vm : Vm N
  pub waits : ℕ → Option Join
  pub arm : ℕ → Option ℕ
  pub taken : List ℕ
  pub spawned : ℕ → ℕ
  pub gone : ℕ → Bool

abbrev pub remove : ℕ → List ℕ → List ℕ
remove x [] = []
remove x (y ∷ ys) = if y == x then ys else y ∷ remove x ys

abbrev pub member : ℕ → List ℕ → Bool
member x [] = false
member x (y ∷ ys) = if y == x then true else member x ys

module _ {N : Notify} where
  -- Lua code can use a handle that `task.spawn` returned.
  abbrev pub usable : System N → ℕ → Bool
  usable s id = ltb id s.vm.next_id && not (s.gone id)

  -- A join that is let through starts a wait.
  abbrev pub await : System N → ℕ → Vm N → Option (Result Join MluaError) → System N
  await s id vm (some (ok j)) = record s { vm = vm; waits = update s.waits id (some j) }
  await s id vm (some (err e)) = record s { vm = vm }
  await s id vm none = record s { vm = vm }

  abbrev pub poll_wait : Value → System N → ℕ → Join → System N
  poll_wait marker s id j =
      let (u, out) = poll_join j marker s.vm in
      elim out [
        | pending ↦ s
        | ready values ↦ record s { vm = u; waits = update s.waits id none; taken = id ∷ s.taken }
      ]

  abbrev pub choose_arm : Value → System N → ℕ → ℕ → System N
  choose_arm marker s id t =
      let (u, out) = choose id t marker s.vm in
      elim out [ err e ↦ s | ok values ↦ record s { vm = u; taken = id ∷ s.taken } ]

  unfoldable pub step : Value → System N → Event N → System N
  step marker s (scopes w) = record s { vm = record (s.vm) { world = w } }
  step marker s (spawns grace) =
      let (u, out) = spawn_task grace s.vm in
      elim out [
        | err e ↦ record s { vm = u }
        | ok id ↦ record s { vm = u; spawned = update s.spawned id s.vm.world.next_task }
      ]
  step marker s (ends t out) = record s { vm = end_task t out s.vm }
  step marker s (joins id) =
      let (u, out) = join id s.vm in if usable s id then await s id u (some out) else s
  step marker s (closes id) =
      let (u, out) = close id s.vm in if usable s id then await s id u out else s
  step marker s (polls id) = elim (s.waits id) [ none ↦ s | some j ↦ poll_wait marker s id j ]
  step marker s (drops id) = record s { waits = update s.waits id none }
  step marker s (cancels id) = if usable s id then record s { vm = (cancel id s.vm).0 } else s
  step marker s (collects id) =
      if usable s id then record s { vm = collect id s.vm; gone = update s.gone id true } else s
  step marker s (arms id) =
      if usable s id
      then elim (task_case id s.vm) [
        | err e ↦ s
        | ok t ↦ record s { arm = update s.arm id (some t) }
      ]
      else s
  step marker s (chooses id) =
      if usable s id then elim (s.arm id) [ none ↦ s | some t ↦ choose_arm marker s id t ] else s
  step marker s (gives_back id taken) =
      if usable s id && member id s.taken
      then elim (s.arm id) [
        | none ↦ s
        | some t ↦ record s { vm = give_back id t taken s.vm; taken = remove id s.taken }
      ]
      else s

  unfoldable pub exec : Value → System N → List (Event N) → System N
  exec marker s [] = s
  exec marker s (e ∷ es) = exec marker (step marker s e) es

-- A VM with no task yet.
abbrev pub no_tasks : {N : Notify} → World N Values → System N
no_tasks w = record {
  vm = record { world = w; tasks = λ i. none; next_id = 0; joined = λ i. false };
  waits = λ i. none;
  arm = λ i. none;
  taken = [];
  spawned = λ i. 0;
  gone = λ i. false;
}
