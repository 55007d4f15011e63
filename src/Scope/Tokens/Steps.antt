-- ===== src/Scope/Tokens/Steps.antt =====
-- src/scope.rs: whole runs, and the tokens of the tasks.
use mlua_isle.Base.{
  ℕ, ◌+◌, ◌≡◌, ◌≢◌, ◌<◌, ◌⊎◌, refl, sym, ap, subst, Bool, true, false, ◌&&◌, ◌||◌, not, List, [],
  ◌∷◌, Option, none, some, ltb, if◌then◌else◌, update, count, arith, and_true, first_guard,
  Option-cases, Bool-cases, inl, inr,
}
use mlua_isle.Tokio.{Notify}
use mlua_isle.Cancel.{new, is_cancelled}
use mlua_isle.Cancel.Flags.{new-IsLater}
use mlua_isle.Scope.{
  World, running, draining, closed, spawn, take_deadline, start_drain, set_phase, abort_on_drop,
  cancel_token, cancel_one, abort_one, cancel_all, abort_all, is_drained,
}
use mlua_isle.Scope.Runs.{
  unpolled, starts, drop_run, in_body, in_grace, waiting, gone, is_stage, System, Event, roots,
  spawns, sees_cancel, ends, drained, drops, cancels, frees, passes, finish_task, start_root,
  start_task, register, to_stage, step, run, no_scopes,
}
use mlua_isle.Scope.Structure.Spawns.{register-none, register-some}
use mlua_isle.Scope.Structure.Drains.{drained_lem, start_drain_lem}
use mlua_isle.Scope.Tokens.{
  IsCancelling, IsOnward-IsCancelling, cancel_token-IsOnward, ended-IsCancelling,
  cancel_one-IsCancel, abort_one-IsCancel,
}
use mlua_isle.Scope.Tokens.Spawns.{finish-IsCancelling, spawn-IsCancelling, started-IsCancelling}

module _ {N : Notify} {V : Type 0} where
  register_world : (s : System N V) (u : World N V) (t : ℕ) → (register s (u, t)).world ≡ u
  register_world s u t = elim (Option-cases (u.body t)) [
    | inl e ↦ ap (λ x. x.world) (register-none s u t e)
    | inr (c, e) ↦ ap (λ x. x.world) (register-some s u t c e)
  ]

  -- What the tokens do not depend on.
  aside-IsCancelling :
      (held : ℕ → Bool) (result : ℕ → Option V) (now : ℕ) (w : World N V)
      → IsCancelling w
      → IsCancelling (record w { held = held; result = result; now = now })
  aside-IsCancelling held result now w h = record {
    bounded = h.bounded;
    listed = h.listed;
    ending = h.ending;
  }

  finish_task-IsCancelling :
      (o : Option ℕ) (v : Option V) (w : World N V)
      → IsCancelling w
      → IsCancelling (finish_task o v w)
  unfolding finish_task
  finish_task-IsCancelling none v w h = h
  finish_task-IsCancelling (some t) v w h =
      let result = update w.result t v in
      finish-IsCancelling t (record w { result = result })
        (aside-IsCancelling w.held result w.now w h)

  take_deadline-IsCancelling :
      (i : ℕ) (w : World N V) → IsCancelling w → IsCancelling (take_deadline i w)
  unfolding take_deadline
  take_deadline-IsCancelling i w h = record {
    bounded = h.bounded;
    listed = λ p t l c. ground (arith, h.listed p t);
    ending = λ p t l n c d. ground (arith, h.ending p t);
  }

  drained-IsCancelling :
      (i : ℕ) (w : World N V)
      → i < w.next_scope
      → is_drained i w ≡ true
      → IsCancelling w
      → IsCancelling (set_phase closed i w)
  drained-IsCancelling i w l e h = record {
    bounded = h.bounded;
    listed = λ p t m c. ground (arith, h.listed p t);
    ending = λ p t m n c d. ground (arith, h.ending p t, drained_lem i t w e);
  }

  phased-IsCancelling :
      (i : ℕ) (w : World N V)
      → i < w.next_scope
      → IsCancelling w
      → IsCancelling (cancel_all i (set_phase draining i w))
  unfolding cancel_all
  phased-IsCancelling i w l h =
      ended-IsCancelling cancel_one i (record (w.scope i) { phase = draining }) w
        cancel_one-IsCancel refl l h

  start_drain-IsCancelling :
      (i : ℕ) (w : World N V) → i < w.next_scope → IsCancelling w → IsCancelling (start_drain i w)
  unfolding take_deadline
  start_drain-IsCancelling i w l h = elim (Option-cases (w.scope i).deadline) [
    | inr (d, e) ↦
        subst IsCancelling (sym (start_drain_lem i w (some d) e)) (phased-IsCancelling i w l h)
    | inl e ↦
        let u = take_deadline i w in
        subst IsCancelling (sym (start_drain_lem i w none e))
          (phased-IsCancelling i u l (take_deadline-IsCancelling i w h))
  ]

  abort_on_drop-IsCancelling :
      (i : ℕ) (w : World N V) → i < w.next_scope → IsCancelling w → IsCancelling (abort_on_drop i w)
  unfolding abort_on_drop abort_all
  abort_on_drop-IsCancelling i w l h =
      ended-IsCancelling abort_one i (record (w.scope i) { phase = closed }) w abort_one-IsCancel
        refl l h

  drop_run-IsCancelling :
      (i : ℕ) (s : System N V)
      → i < s.world.next_scope
      → IsCancelling s.world
      → IsCancelling (drop_run i s)
  unfolding drop_run
  drop_run-IsCancelling i s l h = elim (Bool-cases (is_stage unpolled (s.stage i))) [
    | inl e ↦ rw (drop_run, e) h
    | inr e ↦
        rw (drop_run, e)
          (finish_task-IsCancelling (s.task_of i) none (abort_on_drop i s.world)
            (abort_on_drop-IsCancelling i s.world l h))
  ]

  if-IsCancelling :
      (b : Bool) (s u : System N V)
      → IsCancelling s.world
      → (b ≡ true → IsCancelling u.world)
      → IsCancelling (if b then u else s).world
  if-IsCancelling true s u h f = f refl
  if-IsCancelling false s u h f = h

  step-IsCancelling :
      (e : Event V) (s : System N V) → IsCancelling s.world → IsCancelling (step s e).world
  unfolding step start_root to_stage new start_task
  step-IsCancelling (roots g) s h =
      started-IsCancelling (new s.world.tree).1 g (new s.world.tree).0 s.world
        (new-IsLater s.world.tree) h
  step-IsCancelling (spawns i g) s h =
      let u = spawn g i s.world in
      if-IsCancelling (ltb i s.world.next_scope && s.world.held i) s (start_task i g s) h (λ b.
        subst IsCancelling (sym (register_world s u.0 u.1))
          (spawn-IsCancelling g i s.world (ground (arith, b)) h))
  step-IsCancelling (starts i) s h =
      if-IsCancelling (ltb i s.world.next_scope && is_stage unpolled (s.stage i)) s
        (to_stage i in_body s.world s) h (λ b. h)
  step-IsCancelling (sees_cancel i) s h =
      if-IsCancelling
        (ltb i s.world.next_scope
          && (is_stage in_body (s.stage i) && is_cancelled (s.world.scope i).token s.world.tree))
        s (to_stage i in_grace (take_deadline i s.world) s) h
        (λ b. take_deadline-IsCancelling i s.world h)
  step-IsCancelling (ends i) s h =
      let c = is_stage in_body (s.stage i) || is_stage in_grace (s.stage i) in
      if-IsCancelling (ltb i s.world.next_scope && c) s
        (to_stage i waiting (start_drain i s.world) s) h
        (λ b. start_drain-IsCancelling i s.world (first_guard i s.world.next_scope c b) h)
  step-IsCancelling (drained i v) s h =
      let d = is_drained i s.world in
      let c = is_stage waiting (s.stage i) && d in
      if-IsCancelling (ltb i s.world.next_scope && c) s
        (to_stage i gone (finish_task (s.task_of i) v (set_phase closed i s.world)) s) h
        (λ b.
          let m =
            (and_true (is_stage waiting (s.stage i)) d
              (and_true (ltb i s.world.next_scope) c b).1).1 in
          finish_task-IsCancelling (s.task_of i) v (set_phase closed i s.world)
            (drained-IsCancelling i s.world (first_guard i s.world.next_scope c b) m h))
  step-IsCancelling (drops i) s h =
      let c = not (is_stage gone (s.stage i)) in
      if-IsCancelling (ltb i s.world.next_scope && c) s (to_stage i gone (drop_run i s) s) h
        (λ b. drop_run-IsCancelling i s (first_guard i s.world.next_scope c b) h)
  step-IsCancelling (cancels n) s h =
      if-IsCancelling (ltb n s.world.tree.next) s (record s { world = cancel_token n s.world }) h
        (λ b. IsOnward-IsCancelling (cancel_token-IsOnward n s.world) h)
  step-IsCancelling (frees i) s h =
      let held = update s.world.held i false in
      if-IsCancelling (is_stage gone (s.stage i)) s
        (record s { world = record (s.world) { held = held } }) h
        (λ b. aside-IsCancelling held s.world.result s.world.now s.world h)
  step-IsCancelling (passes n) s h =
      aside-IsCancelling s.world.held s.world.result (s.world.now + n) s.world h

  run-IsCancelling :
      (es : List (Event V)) (s : System N V) → IsCancelling s.world → IsCancelling (run s es).world
  unfolding run
  run-IsCancelling [] s h = h
  run-IsCancelling (e ∷ es) s h = run-IsCancelling es (step s e) (step-IsCancelling e s h)

module _ (N : Notify) {V : Type 0} where
  -- After any run of the futures of a thread, dropped ones included, every task that is on the list of
  -- a scope that drains or is closed is done or has its token cancelled.
  pub ended_tasks_cancelled :
      (es : List (Event V)) (p t : ℕ)
      → let w = (run (no_scopes N V) es).world in
        p < w.next_scope
        → (w.scope p).phase ≢ running
        → 0 < count t (w.scope p).children
        → ((w.task t).done ≡ true) ⊎ (is_cancelled (w.task t).token w.tree ≡ true)
  unfolding is_cancelled
  ended_tasks_cancelled es p t l n c =
      let w = (run (no_scopes N V) es).world in
      let empty : IsCancelling (no_scopes N V).world = record {
        bounded = λ x b. absurd (omega (arith, b));
        listed = λ q x b. absurd (omega (arith, b));
        ending = λ q x b. absurd (omega (arith, b));
      } in
      let h = run-IsCancelling es (no_scopes N V) empty in
      elim (Bool-cases (w.task t).done) [ inl e ↦ inl e | inr e ↦ inr (h.ending p t l n c e) ]
