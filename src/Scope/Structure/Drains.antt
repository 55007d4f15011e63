-- ===== src/Scope/Structure/Drains.antt =====
-- src/scope.rs: `with_grace`, `run_in` and the ends of tasks, and the tasks below a scope.
use mlua_isle.Base.{
  ℕ, ◌+◌, ◌≡◌, ◌≢◌, ◌<◌, refl, sym, ap, subst, true, List, [], ◌∷◌, Option, none, some, update,
  count, update_twice, arith, Option-cases, inl, inr,
}
use mlua_isle.Tokio.{Notify}
use mlua_isle.Scope.{
  World, draining, closed, take_deadline, start_drain, is_drained, set_phase, cancel_token,
  each_task, cancel_one, cancel_all, min_with, ancestors_deadline,
}
use mlua_isle.Scope.Runs.{in_grace, waiting, gone, System, finish_task, to_stage}
use mlua_isle.Scope.Structure.{
  count-undone, IsStructured, with_world, finish-IsStructured, aside-IsStructured,
  changed-IsStructured,
}

module _ {N : Notify} {V : Type 0} where
  pub cancel_each_lem :
      (ts : List ℕ) (w : World N V)
      → each_task cancel_one ts w ≡ record w { tree = (each_task cancel_one ts w).tree }
  cancel_each_lem [] w = refl
  cancel_each_lem (t ∷ ts) w = cancel_each_lem ts (cancel_token (w.task t).token w)

  pub take_deadline-IsStructured :
      (i : ℕ) (s : System N V)
      → i < s.world.next_scope
      → s.stage i ≢ gone
      → IsStructured s
      → IsStructured (to_stage i in_grace (take_deadline i s.world) s)
  unfolding to_stage take_deadline
  take_deadline-IsStructured i s l n h =
      let d = min_with (ancestors_deadline i s.world) (s.world.now + (s.world.scope i).grace) in
      changed-IsStructured i s (record (s.world.scope i) { deadline = some d }) in_grace
        s.world.tree l (refl, refl) n (λ e. n ((h.staged i l).1 e)) (λ e. cc) h

  phased :
      (i : ℕ) (w : World N V)
      → cancel_all i (set_phase draining i w) ≡ record w {
        tree = (cancel_all i (set_phase draining i w)).tree;
        scope = update w.scope i (record (w.scope i) { phase = draining });
      }
  unfolding cancel_all
  phased i w = let u = set_phase draining i w in cancel_each_lem (u.scope i).children u

  phased-IsStructured :
      (i : ℕ) (s : System N V)
      → i < s.world.next_scope
      → s.stage i ≢ gone
      → IsStructured s
      → IsStructured (to_stage i waiting (cancel_all i (set_phase draining i s.world)) s)
  unfolding to_stage
  phased-IsStructured i s l n h = rw (phased i s.world) (
      changed-IsStructured i s (record (s.world.scope i) { phase = draining }) waiting
        (cancel_all i (set_phase draining i s.world)).tree l (refl, refl) n (λ e. cc) (λ e. cc) h)

  -- The world in which a scope starts to drain.
  abbrev pub with_deadline : Option ℕ → ℕ → World N V → World N V
  with_deadline none i w = take_deadline i w
  with_deadline (some d) i w = w

  pub start_drain_lem :
      (i : ℕ) (w : World N V) (o : Option ℕ)
      → (w.scope i).deadline ≡ o
      → start_drain i w ≡ cancel_all i (set_phase draining i (with_deadline o i w))
  unfolding start_drain
  start_drain_lem i w none e =
      ap
        (λ x. cancel_all i (
          set_phase draining i
            (elim x as (λ y. World N V) [ some d ↦ w | none ↦ take_deadline i w ])))
        e
  start_drain_lem i w (some d) e =
      ap
        (λ x. cancel_all i (
          set_phase draining i
            (elim x as (λ y. World N V) [ some d' ↦ w | none ↦ take_deadline i w ])))
        e

  pub start_drain-IsStructured :
      (i : ℕ) (s : System N V)
      → i < s.world.next_scope
      → s.stage i ≢ gone
      → IsStructured s
      → IsStructured (to_stage i waiting (start_drain i s.world) s)
  unfolding to_stage take_deadline
  start_drain-IsStructured i s l n h = elim (Option-cases (s.world.scope i).deadline) [
    | inr (d, e) ↦
        subst (λ w. IsStructured (to_stage i waiting w s))
          (sym (start_drain_lem i s.world (some d) e)) (phased-IsStructured i s l n h)
    | inl e ↦
        let u = to_stage i in_grace (take_deadline i s.world) s in
        let m = take_deadline-IsStructured i s l n h in
        let k = phased-IsStructured i u l (λ q. ground (arith, q)) m in
        subst (λ w. IsStructured (to_stage i waiting w s)) (sym (start_drain_lem i s.world none e))
          (subst
            (λ g. IsStructured (record s {
              world = cancel_all i (set_phase draining i (take_deadline i s.world));
              stage = g;
            }))
            (update_twice s.stage i in_grace waiting) k)
  ]

  pub drained_lem :
      (i t : ℕ) (w : World N V)
      → is_drained i w ≡ true
      → 0 < count t (w.scope i).children
      → (w.task t).done ≡ true
  unfolding is_drained
  drained_lem i t w e c = ground (arith, count-undone w.task t (w.scope i).children)

  pub closed-IsStructured :
      (i : ℕ) (s : System N V)
      → i < s.world.next_scope
      → is_drained i s.world ≡ true
      → IsStructured s
      → IsStructured (to_stage i gone (set_phase closed i s.world) s)
  unfolding to_stage
  closed-IsStructured i s l e h = record {
    owned = λ c p q r. ground (arith, h.owned c p);
    kept = λ c p x q r o. ground (arith, h.kept c p x);
    ended = λ c x q o. ground (arith, h.ended c x);
    emptied = λ p x q r c. ground (arith, h.emptied p x, drained_lem i x s.world e);
    older = λ c p q r. ground (arith, h.older c p);
    staged = λ c q. ground (arith, h.staged c);
    listed = λ p x q c. ground (arith, h.listed p x);
  }

  pub finish_task-IsStructured :
      (i : ℕ) (o : Option ℕ) (v : Option V) (s : System N V)
      → i < s.world.next_scope
      → s.task_of i ≡ o
      → (s.world.scope i).phase ≡ closed
      → IsStructured s
      → IsStructured (with_world s (finish_task o v s.world))
  unfolding finish_task
  finish_task-IsStructured i none v s l o e h = h
  finish_task-IsStructured i (some t) v s l o e h =
      let w = s.world in
      let result = update w.result t v in
      finish-IsStructured t (with_world s (record w { result = result }))
        (λ c m q. ground (arith, h.ended c t m q, h.ended i t l o))
        (aside-IsStructured w.tree w.held result w.now s h)
