-- ===== src/Scope/Structure/Steps.antt =====
-- src/scope.rs: whole runs, and the tasks below a scope.
use mlua_isle.Base.{
  ℕ, ◌+◌, ◌≡◌, ◌≢◌, ◌<◌, refl, ap, Bool, true, false, ◌&&◌, ◌||◌, List, [], ◌∷◌, Option, some, ltb,
  if◌then◌else◌, update, and_true, ltb→lt, arith, Option-cases, inl, inr,
}
use mlua_isle.Tokio.{Notify}
use mlua_isle.Cancel.{is_cancelled}
use mlua_isle.Scope.{World, closed, take_deadline, start_drain, is_drained, set_phase, cancel_token}
use mlua_isle.Cancel.Reach.{IsUnder, itself, below}
use mlua_isle.Scope.Runs.{
  Stage, starts, unpolled, in_body, in_grace, waiting, gone, is_stage, System, Event, roots, spawns,
  sees_cancel, ends, drained, drops, cancels, frees, passes, finish_task, start_task, to_stage,
  step, run, no_scopes,
}
use mlua_isle.Scope.Structure.{
  undone_none, IsStructured, with_world, aside-IsStructured, cancelled-IsStructured,
}
use mlua_isle.Scope.Structure.Spawns.{start_task-IsStructured, start_root-IsStructured}
use mlua_isle.Scope.Structure.Drains.{
  take_deadline-IsStructured, start_drain-IsStructured, closed-IsStructured,
  finish_task-IsStructured,
}

-- Whether every future runs to its end.
abbrev pub no_drops : {V : Type 0} → List (Event V) → Bool
no_drops [] = true
no_drops (drops i ∷ es) = false
no_drops (roots g ∷ es) = no_drops es
no_drops (spawns i g ∷ es) = no_drops es
no_drops (starts i ∷ es) = no_drops es
no_drops (sees_cancel i ∷ es) = no_drops es
no_drops (ends i ∷ es) = no_drops es
no_drops (drained i v ∷ es) = no_drops es
no_drops (cancels n ∷ es) = no_drops es
no_drops (frees i ∷ es) = no_drops es
no_drops (passes n ∷ es) = no_drops es

tail_drops :
    {V : Type 0} (e : Event V) (es : List (Event V))
    → no_drops (e ∷ es) ≡ true
    → (no_drops (e ∷ []) ≡ true) × (no_drops es ≡ true)
tail_drops (drops i) es n = absurd (ground (arith, n))
tail_drops (roots g) es n = (refl, n)
tail_drops (spawns i g) es n = (refl, n)
tail_drops (starts i) es n = (refl, n)
tail_drops (sees_cancel i) es n = (refl, n)
tail_drops (ends i) es n = (refl, n)
tail_drops (drained i v) es n = (refl, n)
tail_drops (cancels m) es n = (refl, n)
tail_drops (frees i) es n = (refl, n)
tail_drops (passes m) es n = (refl, n)

-- A future that is in its body has not ended.
live_stage : (g : Stage) (x y : Bool) → x && (is_stage in_body g && y) ≡ true → g ≢ gone
live_stage g false y e = absurd (ground (arith, e))
live_stage g true y e = ground (arith, e)

open_stage :
    (g : Stage) (x : Bool) → x && (is_stage in_body g || is_stage in_grace g) ≡ true → g ≢ gone
open_stage g false e = absurd (ground (arith, e))
open_stage g true e = ground (arith, e)

module _ {N : Notify} {V : Type 0} where
  guarded-IsStructured :
      (b : Bool) (s u : System N V)
      → IsStructured s
      → (b ≡ true → IsStructured u)
      → IsStructured (if b then u else s)
  guarded-IsStructured true s u h f = f refl
  guarded-IsStructured false s u h f = h

  -- The first poll of the future of a task.
  started-IsStructured :
      (i : ℕ) (s : System N V)
      → i < s.world.next_scope
      → s.stage i ≢ gone
      → IsStructured s
      → IsStructured (to_stage i in_body s.world s)
  unfolding to_stage
  started-IsStructured i s l n h = record {
    owned = h.owned;
    kept = h.kept;
    ended = h.ended;
    emptied = h.emptied;
    older = h.older;
    staged = λ c q. ground (arith, h.staged c, h.staged i);
    listed = h.listed;
  }

  step-IsStructured :
      (e : Event V) (s : System N V)
      → no_drops (e ∷ []) ≡ true
      → IsStructured s
      → IsStructured (step s e)
  unfolding step to_stage
  step-IsStructured (roots g) s n h = start_root-IsStructured g s h
  step-IsStructured (spawns i g) s n h =
      guarded-IsStructured (ltb i s.world.next_scope && s.world.held i) s (start_task i g s) h
        (λ b. start_task-IsStructured i g s (ground (arith, b)) h)
  step-IsStructured (starts i) s n h =
      guarded-IsStructured (ltb i s.world.next_scope && is_stage unpolled (s.stage i)) s
        (to_stage i in_body s.world s) h
        (λ b. started-IsStructured i s (ground (arith, b)) (ground (arith, b)) h)
  step-IsStructured (sees_cancel i) s n h =
      guarded-IsStructured
        (ltb i s.world.next_scope
          && (is_stage in_body (s.stage i) && is_cancelled (s.world.scope i).token s.world.tree))
        s (to_stage i in_grace (take_deadline i s.world) s) h
        (λ b.
          take_deadline-IsStructured i s (ground (arith, b))
            (λ q. live_stage (s.stage i) (ltb i s.world.next_scope) _ b q) h)
  step-IsStructured (ends i) s n h =
      guarded-IsStructured
        (ltb i s.world.next_scope
          && (is_stage in_body (s.stage i) || is_stage in_grace (s.stage i)))
        s (to_stage i waiting (start_drain i s.world) s) h
        (λ b.
          start_drain-IsStructured i s (ground (arith, b))
            (λ q. open_stage (s.stage i) (ltb i s.world.next_scope) b q) h)
  step-IsStructured (drained i v) s n h =
      guarded-IsStructured
        (ltb i s.world.next_scope && (is_stage waiting (s.stage i) && is_drained i s.world)) s
        (to_stage i gone (finish_task (s.task_of i) v (set_phase closed i s.world)) s) h
        (λ b.
          let (x, y) =
            and_true (ltb i s.world.next_scope)
              (is_stage waiting (s.stage i) && is_drained i s.world) b in
          let d = (and_true (is_stage waiting (s.stage i)) (is_drained i s.world) y).1 in
          let l = ltb→lt i s.world.next_scope x in
          let u = to_stage i gone (set_phase closed i s.world) s in
          let k = closed-IsStructured i s l d h in
          finish_task-IsStructured i (s.task_of i) v u l refl (ground arith) k)
  step-IsStructured (drops i) s n h = absurd (ground (arith, n))
  step-IsStructured (cancels n) s m h =
      guarded-IsStructured (ltb n s.world.tree.next) s (with_world s (cancel_token n s.world)) h
        (λ b. cancelled-IsStructured n s h)
  step-IsStructured (frees i) s n h =
      guarded-IsStructured (is_stage gone (s.stage i)) s
        (with_world s (record (s.world) { held = update s.world.held i false })) h
        (λ b.
          aside-IsStructured s.world.tree (update s.world.held i false) s.world.result s.world.now s
            h)
  step-IsStructured (passes n) s m h =
      aside-IsStructured s.world.tree s.world.held s.world.result (s.world.now + n) s h

  pub run-IsStructured :
      (es : List (Event V)) (s : System N V)
      → no_drops es ≡ true
      → IsStructured s
      → IsStructured (run s es)
  unfolding run
  run-IsStructured [] s n h = h
  run-IsStructured (e ∷ es) s n h =
      let (m, k) = tail_drops e es n in run-IsStructured es (step s e) k (step-IsStructured e s m h)

  -- The parents of the scopes.
  abbrev pub scope_parents : World N V → ℕ → Option ℕ
  scope_parents w j = (w.scope j).parent

  -- The task that runs a scope below a closed one is done.
  run_done :
      (s : System N V) (p j t : ℕ)
      → IsStructured s
      → j < s.world.next_scope
      → (s.world.scope j).parent ≡ some p
      → (s.world.scope p).phase ≡ closed
      → s.task_of j ≡ some t
      → (s.world.task t).done ≡ true
  run_done s p j t h l e c q = elim (h.kept j p t l e q) [
    | inl d ↦ d
    | inr x ↦ h.emptied p t (omega (arith, h.older j p l e)) c x
  ]

  IsStructured-below :
      (s : System N V) (i j : ℕ)
      → IsStructured s
      → IsUnder (scope_parents s.world) i j
      → j < s.world.next_scope
      → (s.world.scope i).phase ≡ closed
      → ((s.world.scope j).phase ≡ closed)
        × ((t : ℕ) → j ≢ i → s.task_of j ≡ some t → (s.world.task t).done ≡ true)
  IsStructured-below s i j h itself l c = (c, λ t n. absurd (n refl))
  IsStructured-below s i j h (below {p} k e u) l c =
      let (m, _) = IsStructured-below s i p h u (omega (arith, h.older j p l e)) c in
      let done = λ (t : ℕ) (q : s.task_of j ≡ some t). run_done s p j t h l e m q in
      (
        elim (Option-cases (s.task_of j)) as (λ _. (s.world.scope j).phase ≡ closed) [
          | inl q ↦ absurd (h.owned j p l e q)
          | inr (t, q) ↦ (h.ended j t l q).2 (done t q)
        ],
        λ t _ q. done t q,
      )

  pub no_scopes-IsStructured : IsStructured (no_scopes N V)
  no_scopes-IsStructured = record {
    owned = λ c p l. absurd (omega (arith, l));
    kept = λ c p t l. absurd (omega (arith, l));
    ended = λ c t l. absurd (omega (arith, l));
    emptied = λ p t l. absurd (omega (arith, l));
    older = λ c p l. absurd (omega (arith, l));
    staged = λ i l. absurd (omega (arith, l));
    listed = λ p t l. absurd (omega (arith, l));
  }

  drained-closed :
      (i : ℕ) (s : System N V)
      → IsStructured s
      → i < s.world.next_scope
      → (s.world.scope i).phase ≡ closed
      → is_drained i s.world ≡ true
  unfolding is_drained
  drained-closed i s h l c =
      ap (λ ts. elim ts as (λ _. Bool) [ [] ↦ true | t ∷ us ↦ false ])
        (undone_none s.world.task (s.world.scope i).children (λ t k. h.emptied i t l c k))

module _ (N : Notify) {V : Type 0} where
  -- After any run of the futures of a thread in which none is dropped, once a scope is closed, every
  -- scope that was made below it, however many generations down, is closed too, and no task is left on
  -- its list that is not done.
  pub closed_below :
      (es : List (Event V)) (i j : ℕ)
      → let s = run (no_scopes N V) es in
        no_drops es ≡ true
        → IsUnder (scope_parents s.world) i j
        → j < s.world.next_scope
        → (s.world.scope i).phase ≡ closed
        → ((s.world.scope j).phase ≡ closed) × (is_drained j s.world ≡ true)
  closed_below es i j n u l c =
      let s = run (no_scopes N V) es in
      let h = run-IsStructured es (no_scopes N V) n no_scopes-IsStructured in
      let d = (IsStructured-below s i j h u l c).0 in (d, drained-closed j s h l d)

  -- After any run of the futures of a thread in which none is dropped, once a scope is closed, the task
  -- that runs a scope below it, however many generations down, is done.
  pub tasks_below_done :
      (es : List (Event V)) (i j t : ℕ)
      → let s = run (no_scopes N V) es in
        no_drops es ≡ true
        → IsUnder (scope_parents s.world) i j
        → j ≢ i
        → j < s.world.next_scope
        → (s.world.scope i).phase ≡ closed
        → s.task_of j ≡ some t
        → (s.world.task t).done ≡ true
  tasks_below_done es i j t n u m l c q =
      let s = run (no_scopes N V) es in
      let h = run-IsStructured es (no_scopes N V) n no_scopes-IsStructured in
      (IsStructured-below s i j h u l c).1 t m q
