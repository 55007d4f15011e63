-- ===== src/Scope/Structure.antt =====
-- src/scope.rs: the tasks below a scope.
pub mod Spawns
pub mod Drains
pub mod Steps
use mlua_isle.Base.{
  ℕ, suc, ◌+◌, ◌≡◌, ◌≢◌, ◌<◌, ◌⊎◌, refl, sym, ap, ◌∙◌, subst, Bool, true, false, ◌&&◌, ◌||◌, not,
  List, [], ◌∷◌, ◌++◌, Option, none, some, leb, ltb, if◌then◌else◌, update, count, count-append,
  and_true, ltb→lt, update_twice, arith, Bool-cases, Option-cases, inl, inr,
}
use mlua_isle.Tokio.{Notify}
use mlua_isle.Cancel.{Tree, is_cancelled, cancel, new, child_token}
use mlua_isle.Scope.{
  World, TaskState, Scope, Phase, running, draining, closed, is_running, is_draining, new_scope,
  spawn, finish, take_deadline, start_drain, is_drained, set_phase, abort_on_drop, cancel_token,
  cancel_all, min_with, ancestors_deadline, set_scope, add, new_task, start_body, out_of_time,
  undone,
}
use mlua_isle.Cancel.Reach.{IsUnder, itself, below}
use mlua_isle.Scope.Runs.{
  Stage, in_body, in_grace, waiting, gone, is_stage, System, Event, roots, spawns, sees_cancel,
  ends, drained, drops, cancels, frees, passes, finish_task, start_root, start_task, register,
  to_stage, step, run,
}

pub count-undone :
    {N : Notify} (task : ℕ → TaskState N) (t : ℕ) (ts : List ℕ)
    → ((task t).done ≡ false → count t (undone task ts) ≡ count t ts)
      × (0 < count t (undone task ts) → ((task t).done ≡ false) × (0 < count t ts))
count-undone task t [] = ground arith
count-undone task t (x ∷ xs) = ground (arith, count-undone task t xs)

pub undone_none :
    {N : Notify} (task : ℕ → TaskState N) (ts : List ℕ)
    → ((t : ℕ) → 0 < count t ts → (task t).done ≡ true)
    → undone task ts ≡ []
undone_none task [] h = refl
undone_none task (x ∷ xs) h =
    rw (h x (ground arith)) (undone_none task xs (λ t c. h t (ground (arith, c))))

-- A scope keeps its parent and its tasks, and changes in its phase at most.
abbrev pub Keeps : Scope → Scope → Type 0
Keeps c d = (d.parent ≡ c.parent) × (d.children ≡ c.children)

module _ {N : Notify} {V : Type 0} where
  -- Every scope below another is the run of a task that is done, or is still on the list of the
  -- other; a task is done only when its scope is closed; and a closed scope has no task left.
  pub record IsStructured (s : System N V) : Type 0 where
    pub owned :
        (c p : ℕ) → c < s.world.next_scope → (s.world.scope c).parent ≡ some p → s.task_of c ≢ none
    pub kept :
        (c p t : ℕ)
        → c < s.world.next_scope
        → (s.world.scope c).parent ≡ some p
        → s.task_of c ≡ some t
        → ((s.world.task t).done ≡ true) ⊎ (0 < count t (s.world.scope p).children)
    pub ended :
        (c t : ℕ)
        → c < s.world.next_scope
        → s.task_of c ≡ some t
        → (t < s.world.next_task)
          × (s.world.body t ≡ some c)
          × ((s.world.task t).done ≡ true → (s.world.scope c).phase ≡ closed)
    pub emptied :
        (p t : ℕ)
        → p < s.world.next_scope
        → (s.world.scope p).phase ≡ closed
        → 0 < count t (s.world.scope p).children
        → (s.world.task t).done ≡ true
    pub older : (c p : ℕ) → c < s.world.next_scope → (s.world.scope c).parent ≡ some p → p < c
    pub staged :
        (i : ℕ)
        → i < s.world.next_scope
        → (s.stage i ≡ gone → (s.world.scope i).phase ≡ closed)
          × ((s.world.scope i).phase ≡ closed → s.stage i ≡ gone)
    pub listed :
        (p t : ℕ)
        → p < s.world.next_scope
        → 0 < count t (s.world.scope p).children
        → t < s.world.next_task

  abbrev pub with_world : System N V → World N V → System N V
  with_world s w = record s { world = w }

  -- What the order of scopes and tasks does not depend on.
  pub aside-IsStructured :
      (tree : Tree N) (held : ℕ → Bool) (result : ℕ → Option V) (now : ℕ) (s : System N V)
      → IsStructured s
      → IsStructured
          (with_world s (record (s.world) { tree = tree; held = held; result = result; now = now }))
  aside-IsStructured tree held result now s h = record {
    owned = h.owned;
    kept = h.kept;
    ended = h.ended;
    emptied = h.emptied;
    older = h.older;
    staged = h.staged;
    listed = h.listed;
  }

  pub cancelled-IsStructured :
      (n : ℕ) (s : System N V)
      → IsStructured s
      → IsStructured (with_world s (cancel_token n s.world))
  cancelled-IsStructured n s =
      aside-IsStructured (cancel n s.world.tree) s.world.held s.world.result s.world.now s

  -- A task ends when its scope is closed, or before it had one.
  pub finish-IsStructured :
      (t : ℕ) (s : System N V)
      → ((c : ℕ) → c < s.world.next_scope → s.task_of c ≡ some t → (s.world.scope c).phase ≡ closed)
      → IsStructured s
      → IsStructured (with_world s (finish t s.world))
  unfolding finish
  finish-IsStructured t s f h = elim (Bool-cases (s.world.task t).done) [
    | inl e ↦ rw e h
    | inr e ↦ rw e (record {
      owned = h.owned;
      kept = λ c p x l q o. ground (arith, h.kept c p x l q o);
      ended = λ c x l o. ground (arith, h.ended c x l o, f c l);
      emptied = λ p x l q c. ground (arith, h.emptied p x l q c);
      older = h.older;
      staged = h.staged;
      listed = h.listed;
    })
  ]

  pub changed-IsStructured :
      (i : ℕ) (s : System N V) (d : Scope) (g : Stage) (tree : Tree N)
      → i < s.world.next_scope
      → Keeps (s.world.scope i) d
      → s.stage i ≢ gone
      → d.phase ≢ closed
      → g ≢ gone
      → IsStructured s
      → IsStructured (record s {
        world = record (s.world) { tree = tree; scope = update s.world.scope i d };
        stage = update s.stage i g;
      })
  changed-IsStructured i s d g tree l k n m o h = record {
    owned = λ c p q e. ground (arith, h.owned c p);
    kept = λ c p x q e r. ground (arith, h.kept c p x);
    ended = λ c x q r. ground (arith, h.ended c x, h.staged c);
    emptied = λ p x q e c. ground (arith, h.emptied p x);
    older = λ c p q e. ground (arith, h.older c p);
    staged = λ c q. ground (arith, h.staged c);
    listed = λ p x q c. ground (arith, h.listed p x);
  }
