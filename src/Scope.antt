-- ===== src/Scope.antt =====
-- src/scope.rs: scopes and their tasks. A scope and a task are named by their addresses, a token by its
-- node in the tree of tokens, a waker by its number; time is a number. `V` is what a task returns.
pub mod Runs
pub mod Structure
pub mod Tokens
pub mod Deadline
mod Tests
pub mod Tasks
use Prim.Native.Nat.{min}
use mlua_isle.Base.{
  ℕ, zero, suc, ◌+◌, Bool, true, false, not, List, [], ◌∷◌, ◌++◌, Option, none, some, Result, ok,
  err, Poll, ready, pending, leb, if◌then◌else◌, update,
}
use mlua_isle.Tokio.{Notify}
use mlua_isle.Error.{IsleError}
use mlua_isle.Cancel.{Tree, cancel, is_cancelled, child_token}

pub data Phase : Type 0 where
  running draining closed : Phase

-- `abort`: whether the abort handle is there.
pub record TaskState (N : Notify) : Type 0 where
  pub token : ℕ
  pub done : Bool
  pub notify : N.State
  pub abort : Bool

pub record Scope : Type 0 where
  pub token : ℕ
  pub grace : ℕ
  pub phase : Phase
  pub children : List ℕ
  pub parent : Option ℕ
  pub deadline : Option ℕ

-- `held` says which scopes have a strong reference, so that a weak one can be upgraded; `result` are
-- the result slots of the tasks, `body` the scope in which the future of a task runs, `current` the
-- scope of the thread and `aborted` the tasks whose abort handle was called.
pub record World (N : Notify) (V : Type 0) : Type 0 where
  pub tree : Tree N
  pub scope : ℕ → Scope
  pub held : ℕ → Bool
  pub next_scope : ℕ
  pub task : ℕ → TaskState N
  pub result : ℕ → Option V
  pub body : ℕ → Option ℕ
  pub next_task : ℕ
  pub now : ℕ
  pub current : Option ℕ
  pub aborted : List ℕ

unfoldable pub new_scope : ℕ → ℕ → Option ℕ → Scope
new_scope token grace parent = record {
  token = token;
  grace = grace;
  phase = running;
  children = [];
  parent = parent;
  deadline = none;
}

abbrev pub is_running : Phase → Bool
is_running running = true
is_running draining = false
is_running closed = false

abbrev pub is_draining : Phase → Bool
is_draining running = false
is_draining draining = true
is_draining closed = false

-- `earliest.map_or(d, |e| e.min(d))`.
abbrev pub min_with : Option ℕ → ℕ → ℕ
min_with none d = d
min_with (some e) d = min e d

-- The earlier of what was found and the deadline of a scope, if it has one.
abbrev pub earlier : Option ℕ → Option ℕ → Option ℕ
earlier found none = found
earlier found (some d) = some (min_with found d)

abbrev pub undone : {N : Notify} → (ℕ → TaskState N) → List ℕ → List ℕ
undone task [] = []
undone task (t ∷ ts) = if (task t).done then undone task ts else t ∷ undone task ts

-- Whether the scope has no time for another task.
unfoldable pub out_of_time : Scope → ℕ → Bool
out_of_time s now = elim s.phase [
  | running ↦ false
  | draining ↦ elim s.deadline [ some d ↦ leb d now | none ↦ false ]
  | closed ↦ true
]

abbrev pub ok_or_cancelled : {V : Type 0} → Option V → Result V IsleError
ok_or_cancelled none = err IsleError.cancelled
ok_or_cancelled (some v) = ok v

module _ {N : Notify} {V : Type 0} where
  abbrev pub set_scope : World N V → ℕ → Scope → World N V
  set_scope w i s = record w { scope = update w.scope i s }

  abbrev pub set_task : World N V → ℕ → TaskState N → World N V
  set_task w t s = record w { task = update w.task t s }

  -- `ScopeEnterGuard`: the scope becomes the current one, and the previous one is restored.
  unfoldable pub enter : ℕ → World N V → World N V × Option ℕ
  enter i w = (record w { current = some i }, w.current)

  unfoldable pub leave : Option ℕ → World N V → World N V
  leave prev w = record w { current = prev }

  -- `Weak::upgrade`.
  unfoldable pub upgrade : World N V → Option ℕ → Option ℕ
  upgrade w none = none
  upgrade w (some p) = if w.held p then some p else none

  -- The loop of `ancestors_deadline` from the scope `next`. A parent is older than its child, so that
  -- `next_scope` rounds are enough.
  unfoldable pub earliest_from : ℕ → Option ℕ → Option ℕ → World N V → Option ℕ
  unfolding upgrade
  earliest_from zero next earliest w = earliest
  earliest_from (suc fuel) none earliest w = earliest
  earliest_from (suc fuel) (some s) earliest w =
      earliest_from fuel (upgrade w (w.scope s).parent) (earlier earliest (w.scope s).deadline) w

  unfoldable pub ancestors_deadline : ℕ → World N V → Option ℕ
  unfolding earliest_from upgrade
  ancestors_deadline i w = earliest_from w.next_scope (upgrade w (w.scope i).parent) none w

  abbrev pub cancel_token : ℕ → World N V → World N V
  cancel_token n w = record w { tree = cancel n w.tree }

  unfoldable pub add : ℕ → ℕ → World N V → World N V
  add i t w =
      let u = if is_draining (w.scope i).phase then cancel_token (w.task t).token w else w in
      set_scope u i (record (u.scope i) { children = undone u.task (u.scope i).children ++ t ∷ [] })

  -- `TaskState::finish`.
  unfoldable pub finish : ℕ → World N V → World N V
  finish t w =
      let (notify, woken) = N.notify_waiters (w.task t).notify in
      if (w.task t).done
      then w
      else record (set_task w t
          (record (w.task t) { done = true; abort = false; notify = notify })) {
            tree = record (w.tree) { woken = w.tree.woken ++ woken };
          }

  -- The token and the state of a new task of scope `i`, with its empty result slot.
  unfoldable pub new_task : ℕ → World N V → World N V
  new_task i w =
      let (tree, token) = child_token (w.scope i).token w.tree in
      record w {
        tree = tree;
        task =
            update w.task w.next_task
              (record { token = token; done = false; notify = N.empty; abort = false });
        result = update w.result w.next_task none;
        body = update w.body w.next_task none;
        next_task = suc w.next_task;
      }

  -- The scope in which the future of task `t` runs; its run holds it.
  unfoldable pub start_body : ℕ → ℕ → ℕ → World N V → World N V
  unfolding new_scope
  start_body grace i t w = record w {
    scope = update w.scope w.next_scope (new_scope (w.task t).token grace (some i));
    held = update w.held w.next_scope true;
    body = update w.body t (some w.next_scope);
    task = update w.task t (record (w.task t) { abort = true });
    next_scope = suc w.next_scope;
  }

  -- `Scope::spawn`; the task is the one that `next_task` names.
  unfoldable pub spawn : ℕ → ℕ → World N V → World N V × ℕ
  unfolding new_task start_body out_of_time add finish
  spawn grace i w =
      let u = new_task i w in
      if out_of_time (w.scope i) w.now
      then (finish w.next_task (cancel_token (u.task w.next_task).token u), w.next_task)
      else (add i w.next_task (start_body grace i w.next_task u), w.next_task)

  abbrev pub each_task : (ℕ → World N V → World N V) → List ℕ → World N V → World N V
  each_task f [] w = w
  each_task f (t ∷ ts) w = each_task f ts (f t w)

  abbrev pub cancel_one : ℕ → World N V → World N V
  cancel_one t w = cancel_token (w.task t).token w

  unfoldable pub cancel_all : ℕ → World N V → World N V
  cancel_all i w = each_task cancel_one (w.scope i).children w

  abbrev pub abort_one : ℕ → World N V → World N V
  abort_one t w =
      let u = cancel_one t w in
      if (u.task t).abort
      then record (set_task u t (record (u.task t) { abort = false })) { aborted = t ∷ u.aborted }
      else u

  unfoldable pub abort_all : ℕ → World N V → World N V
  abort_all i w = each_task abort_one (w.scope i).children w

  -- The deadline that `with_grace` takes when it sees the cancel, and `run_in` when the body ended.
  unfoldable pub take_deadline : ℕ → World N V → World N V
  unfolding ancestors_deadline
  take_deadline i w =
      let own = w.now + (w.scope i).grace in
      set_scope w i (record (w.scope i) { deadline = some (min_with (ancestors_deadline i w) own) })

  abbrev pub set_phase : Phase → ℕ → World N V → World N V
  set_phase p i w = set_scope w i (record (w.scope i) { phase = p })

  -- `run_in` from the end of the body to `wait_all`.
  unfoldable pub start_drain : ℕ → World N V → World N V
  unfolding take_deadline cancel_all
  start_drain i w =
      let u : World N V = elim (w.scope i).deadline [ some d ↦ w | none ↦ take_deadline i w ] in
      cancel_all i (set_phase draining i u)

  -- Whether `wait_all` returns: no task of the scope is left.
  unfoldable pub is_drained : ℕ → World N V → Bool
  is_drained i w = elim (undone w.task (w.scope i).children) [ [] ↦ true | t ∷ ts ↦ false ]

  -- `AbortOnDrop`.
  unfoldable pub abort_on_drop : ℕ → World N V → World N V
  unfolding abort_all
  abort_on_drop i w = abort_all i (set_phase closed i w)

-- `ScopedTask`; `wait` is the wait that is kept across polls, by its waker.
pub record ScopedTask : Type 0 where
  pub state : ℕ
  pub wait : Option ℕ
  pub detached : Bool

unfoldable pub detach : ScopedTask → ScopedTask
detach s = record s { detached = true }

module _ {N : Notify} {V : Type 0} where
  -- `ScopeHandle::spawn_local`.
  unfoldable pub spawn_local : ℕ → World N V → World N V × ScopedTask
  unfolding spawn
  spawn_local i w =
      let (u, t) = spawn (w.scope i).grace i w in
      (u, record { state = t; wait = none; detached = false })

  -- `ScopedTask::poll` by waker `k`: a poll of `wait_done` registers the waker.
  unfoldable pub poll :
      ScopedTask → ℕ → World N V → World N V × ScopedTask × Poll (Result V IsleError)
  poll s k w =
      let t = s.state in
      if (w.task t).done
      then (
        record w { result = update w.result t none },
        record s { wait = none },
        ready (ok_or_cancelled (w.result t)),
      )
      else (
        set_task w t (record (w.task t) { notify = N.enable k (w.task t).notify }),
        record s { wait = some k },
        pending,
      )

  -- `Drop for ScopedTask`.
  unfoldable pub drop : ScopedTask → World N V → World N V
  drop s w =
      if s.detached
      then w
      else if (w.task s.state).done
      then w
      else cancel_token (w.task s.state).token w
