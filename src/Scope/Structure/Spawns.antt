-- ===== src/Scope/Structure/Spawns.antt =====
-- src/scope.rs: `spawn` and `run_root`, and the tasks below a scope.
use mlua_isle.Base.{
  ℕ, ◌≡◌, ◌≢◌, ◌<◌, refl, sym, ap, ◌∙◌, subst, true, false, [], ◌∷◌, ◌++◌, none, some, update,
  count-append, arith, Bool-cases, inl, inr,
}
use mlua_isle.Tokio.{Notify}
use mlua_isle.Scope.{
  World, Scope, closed, is_draining, new_scope, spawn, finish, cancel_token, add, new_task,
  start_body, out_of_time, undone,
}
use mlua_isle.Scope.Runs.{unpolled, System, start_root, start_task, register}
use mlua_isle.Scope.Structure.{
  count-undone, IsStructured, with_world, finish-IsStructured, cancelled-IsStructured,
}

pub out_of_time-open : (c : Scope) (now : ℕ) → out_of_time c now ≡ false → c.phase ≢ closed
unfolding out_of_time
out_of_time-open c now e = ground arith

module _ {N : Notify} {V : Type 0} where
  -- The tree and one scope are all that `add` changes.
  pub add_lem :
      (i t : ℕ) (w : World N V)
      → add i t w ≡ record w {
        tree = (add i t w).tree;
        scope =
            update w.scope i
              (record (w.scope i) { children = undone w.task (w.scope i).children ++ t ∷ [] });
      }
  unfolding add
  add_lem i t w = elim (Bool-cases (is_draining (w.scope i).phase)) [
    | inl e ↦ rw e refl
    | inr e ↦ rw e refl
  ]

  new_task-IsStructured :
      (i : ℕ) (s : System N V) → IsStructured s → IsStructured (with_world s (new_task i s.world))
  unfolding new_task
  new_task-IsStructured i s h = record {
    owned = h.owned;
    kept = λ c p t l e o. ground (arith, h.kept c p t l e o, h.ended c t l o);
    ended = λ c t l o. let (b, x, y) = h.ended c t l o in ground arith;
    emptied = λ p t l e c. ground (arith, h.emptied p t, h.listed p t);
    older = h.older;
    staged = h.staged;
    listed = λ p t l c. ground (arith, h.listed p t);
  }

  -- The system once the task `t` of scope `i` has its run.
  unfoldable pub began : ℕ → ℕ → ℕ → System N V → System N V
  began grace i t s =
      let w = s.world in
      record s {
        world = add i t (start_body grace i t w);
        stage = update s.stage w.next_scope unpolled;
        task_of = update s.task_of w.next_scope (some t);
      }

  began-IsStructured :
      (grace i t : ℕ) (s : System N V)
      → i < s.world.next_scope
      → t < s.world.next_task
      → s.world.body t ≡ none
      → (s.world.task t).done ≡ false
      → (s.world.scope i).phase ≢ closed
      → IsStructured s
      → IsStructured (began grace i t s)
  unfolding began start_body new_scope
  began-IsStructured grace i t s l m b d n h =
      let v = start_body grace i t s.world in
      let k = λ (x : ℕ). count-undone v.task x (s.world.scope i).children in
      let ap' = λ (x : ℕ). count-append x (undone v.task (s.world.scope i).children) (t ∷ []) in
      let a = add_lem i t v in
      rw a (record {
        owned = λ c p q e. ground (arith, h.owned c p);
        kept = λ c p x q e o. ground (arith, h.kept c p x, h.ended c x, h.older c p, k x, ap' x);
        ended = λ c x q o. ground (arith, h.ended c x);
        emptied = λ p x q e c. ground (arith, h.emptied p x, h.listed p x, k x, ap' x);
        older = λ c p q e. ground (arith, h.older c p);
        staged = λ c q. ground (arith, h.staged c);
        listed = λ p x q c. ground (arith, h.listed p x, k x, ap' x);
      })

  pub new_task_lem :
      (i : ℕ) (w : World N V)
      → let u = new_task i w in
        (u.body w.next_task ≡ none)
        × ((u.task w.next_task).done ≡ false)
        × (w.next_task < u.next_task)
        × (u.scope ≡ w.scope)
        × (u.next_scope ≡ w.next_scope)
  unfolding new_task
  new_task_lem i w = (ground arith, ground arith, omega arith, refl, refl)

  finish_body : (t : ℕ) (w : World N V) → (finish t w).body ≡ w.body
  unfolding finish
  finish_body t w = elim (Bool-cases (w.task t).done) [ inl e ↦ rw e refl | inr e ↦ rw e refl ]

  add_body : (i t : ℕ) (w : World N V) → (add i t w).body ≡ w.body
  add_body i t w = ap (λ u. u.body) (add_lem i t w)

  start_body_body :
      (grace i t : ℕ) (w : World N V) → (start_body grace i t w).body t ≡ some w.next_scope
  unfolding start_body
  start_body_body grace i t w = ground arith

  pub register-none :
      (s : System N V) (u : World N V) (t : ℕ)
      → u.body t ≡ none
      → register s (u, t) ≡ with_world s u
  unfolding register
  register-none s u t e = rw e refl

  pub register-some :
      (s : System N V) (u : World N V) (t c : ℕ)
      → u.body t ≡ some c
      → register s (u, t) ≡ record s {
        world = u;
        stage = update s.stage c unpolled;
        task_of = update s.task_of c (some t);
      }
  unfolding register
  register-some s u t c e = rw e refl

  pub start_refused :
      (i grace : ℕ) (s : System N V)
      → out_of_time (s.world.scope i) s.world.now ≡ true
      → let t = s.world.next_task in
        let u = new_task i s.world in
        let v = cancel_token (u.task t).token u in
        u.body t ≡ none → start_task i grace s ≡ with_world s (finish t v)
  unfolding start_task spawn
  start_refused i grace s e b =
      let t = s.world.next_task in
      let u = new_task i s.world in
      let v = cancel_token (u.task t).token u in
      rw e (register-none s (finish t v) t (ap (λ f. f t) (finish_body t v) ∙ b))

  pub start_began :
      (i grace : ℕ) (s : System N V)
      → out_of_time (s.world.scope i) s.world.now ≡ false
      → start_task i grace s ≡ began grace i s.world.next_task (with_world s (new_task i s.world))
  unfolding start_task spawn began
  start_began i grace s e =
      let t = s.world.next_task in
      let u = new_task i s.world in
      let v = start_body grace i t u in
      rw e (
        register-some s (add i t v) t s.world.next_scope
          (ap (λ f. f t) (add_body i t v) ∙ start_body_body grace i t u))

  pub start_task-IsStructured :
      (i grace : ℕ) (s : System N V)
      → i < s.world.next_scope
      → IsStructured s
      → IsStructured (start_task i grace s)
  start_task-IsStructured i grace s l h =
      let w = s.world in
      let t = w.next_task in
      let u = new_task i w in
      let (b, d, m, sc, n) = new_task_lem i w in
      let h' = new_task-IsStructured i s h in
      elim (Bool-cases (out_of_time (w.scope i) w.now)) [
        | inl e ↦ subst IsStructured (sym (start_refused i grace s e b)) (
            finish-IsStructured t (with_world s (cancel_token (u.task t).token u))
              (λ c m' o. ground (arith, h'.ended c t))
              (cancelled-IsStructured (u.task t).token (with_world s u) h'))
        | inr e ↦ subst IsStructured (sym (start_began i grace s e)) (
            began-IsStructured grace i t (with_world s u) (omega (arith, n)) m b d
              (subst (λ f. (f i).phase ≢ closed) (sym sc) (out_of_time-open (w.scope i) w.now e))
              h')
      ]

  pub start_root-IsStructured :
      (grace : ℕ) (s : System N V) → IsStructured s → IsStructured (start_root grace s)
  unfolding start_root new_scope
  start_root-IsStructured grace s h = record {
    owned = λ c p q e. ground (arith, h.owned c p);
    kept = λ c p x q e o. ground (arith, h.kept c p x, h.older c p);
    ended = λ c x q o. ground (arith, h.ended c x);
    emptied = λ p x q e c. ground (arith, h.emptied p x);
    older = λ c p q e. ground (arith, h.older c p);
    staged = λ c q. ground (arith, h.staged c);
    listed = λ p x q c. ground (arith, h.listed p x);
  }
