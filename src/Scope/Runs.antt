-- ===== src/Scope/Runs.antt =====
-- src/scope.rs: the futures of the scopes and tasks of a thread, which poll in any order. An event is
-- what one poll does up to its next await.
use mlua_isle.Base.{
  ℕ, ◌+◌, Bool, true, false, ◌&&◌, ◌||◌, not, List, [], ◌∷◌, Option, none, some, ltb, if◌then◌else◌,
  update,
}
use mlua_isle.Tokio.{Notify}
use mlua_isle.Cancel.{is_cancelled, new}
use mlua_isle.Cancel.Trace.{no_tokens}
use mlua_isle.Scope.{
  World, running, closed, new_scope, spawn, finish, take_deadline, start_drain, is_drained,
  set_phase, abort_on_drop, cancel_token,
}

-- Where the future of a scope is: not polled yet, in its body, in its body with a deadline, waiting for its tasks, or
-- ended.
pub data Stage : Type 0 where
  unpolled in_body in_grace waiting gone : Stage

abbrev pub is_stage : Stage → Stage → Bool
is_stage unpolled unpolled = true
is_stage in_body in_body = true
is_stage in_grace in_grace = true
is_stage waiting waiting = true
is_stage gone gone = true
is_stage _ _ = false

pub record System (N : Notify) (V : Type 0) : Type 0 where
  pub world : World N V
  pub stage : ℕ → Stage
  -- The task whose future runs a scope, if it is not a root.
  pub task_of : ℕ → Option ℕ

-- No scope, no task and no token.
abbrev pub no_scopes : (N : Notify) (V : Type 0) → System N V
no_scopes N V = record {
  world = record {
    tree = no_tokens;
    scope = λ i. record {
      token = 0;
      grace = 0;
      phase = running;
      children = [];
      parent = none;
      deadline = none;
    };
    held = λ i. false;
    next_scope = 0;
    task = λ t. record { token = 0; done = false; notify = N.empty; abort = false };
    result = λ t. none;
    body = λ t. none;
    next_task = 0;
    now = 0;
    current = none;
    aborted = [];
  };
  stage = λ i. in_body;
  task_of = λ i. none;
}

-- `roots`: a root is started (`run_root`). `spawns`: any code with the scope at hand spawns a task.
-- `starts`: the future of a task is polled for the first time. `sees_cancel`: `with_grace` sees the cancel. `ends`: the body returned, or its time is up.
-- `drained`: no task is left, and the scope closes; a task then fills its result slot, and is done.
-- `drops`: the future is dropped; one that was never polled has made neither guard, so that its task is
-- not marked done and its scope does not close. `cancels`: some token is cancelled. `frees`: the last strong
-- reference to a scope goes. `passes`: time passes.
pub data Event (V : Type 0) : Type 0 where
  roots : ℕ → Event V
  spawns : ℕ → ℕ → Event V
  starts : ℕ → Event V
  sees_cancel : ℕ → Event V
  ends : ℕ → Event V
  drained : ℕ → Option V → Event V
  drops : ℕ → Event V
  cancels : ℕ → Event V
  frees : ℕ → Event V
  passes : ℕ → Event V

module _ {N : Notify} {V : Type 0} where
  -- The future of a task ends with the run of its scope.
  unfoldable pub finish_task : Option ℕ → Option V → World N V → World N V
  finish_task none v w = w
  finish_task (some t) v w = finish t (record w { result = update w.result t v })

  unfoldable pub start_root : ℕ → System N V → System N V
  unfolding new_scope
  start_root grace s =
      let w = s.world in
      let (tree, token) = new w.tree in
      record s {
        world = record w {
          tree = tree;
          scope = update w.scope w.next_scope (new_scope token grace none);
          held = update w.held w.next_scope true;
          next_scope = w.next_scope + 1;
        };
        stage = update s.stage w.next_scope in_body;
        task_of = update s.task_of w.next_scope none;
      }

  -- The run of a task that was spawned, if it has one, waits for its first poll.
  unfoldable pub register : System N V → World N V × ℕ → System N V
  register s (u, t) = elim (u.body t) [
    | none ↦ record s { world = u }
    | some c ↦ record s {
      world = u;
      stage = update s.stage c unpolled;
      task_of = update s.task_of c (some t);
    }
  ]

  unfoldable pub start_task : ℕ → ℕ → System N V → System N V
  unfolding register
  start_task i grace s = register s (spawn grace i s.world)

  -- The future of a scope is dropped, with the guards that it has made.
  unfoldable pub drop_run : ℕ → System N V → World N V
  unfolding finish_task
  drop_run i s =
      if is_stage unpolled (s.stage i)
      then s.world
      else finish_task (s.task_of i) none (abort_on_drop i s.world)

  unfoldable pub to_stage : ℕ → Stage → World N V → System N V → System N V
  to_stage i g w s = record s { world = w; stage = update s.stage i g }

  -- An event that cannot happen leaves the system as it is.
  unfoldable pub step : System N V → Event V → System N V
  unfolding start_root start_task to_stage finish_task drop_run
  step s (roots grace) = start_root grace s
  step s (spawns i grace) =
      if ltb i s.world.next_scope && s.world.held i then start_task i grace s else s
  step s (starts i) =
      if ltb i s.world.next_scope && is_stage unpolled (s.stage i)
      then to_stage i in_body s.world s
      else s
  step s (sees_cancel i) =
      if ltb i s.world.next_scope
        && (is_stage in_body (s.stage i) && is_cancelled (s.world.scope i).token s.world.tree)
      then to_stage i in_grace (take_deadline i s.world) s
      else s
  step s (ends i) =
      if ltb i s.world.next_scope && (is_stage in_body (s.stage i) || is_stage in_grace (s.stage i))
      then to_stage i waiting (start_drain i s.world) s
      else s
  step s (drained i v) =
      if ltb i s.world.next_scope && (is_stage waiting (s.stage i) && is_drained i s.world)
      then to_stage i gone (finish_task (s.task_of i) v (set_phase closed i s.world)) s
      else s
  step s (drops i) =
      if ltb i s.world.next_scope && not (is_stage gone (s.stage i))
      then to_stage i gone (drop_run i s) s
      else s
  step s (cancels n) =
      if ltb n s.world.tree.next then record s { world = cancel_token n s.world } else s
  step s (frees i) =
      if is_stage gone (s.stage i)
      then record s { world = record (s.world) { held = update s.world.held i false } }
      else s
  step s (passes n) = record s { world = record (s.world) { now = s.world.now + n } }

  unfoldable pub run : System N V → List (Event V) → System N V
  run s [] = s
  run s (e ∷ es) = run (step s e) es
