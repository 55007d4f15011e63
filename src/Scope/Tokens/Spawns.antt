-- ===== src/Scope/Tokens/Spawns.antt =====
-- src/scope.rs: `spawn` and `run_root`, and the tokens of the tasks.
use mlua_isle.Base.{
  ℕ, ◌+◌, ◌≢◌, ◌<◌, true, [], ◌∷◌, none, update, count-append, arith, Bool-cases, inl, inr,
}
use mlua_isle.Tokio.{Notify}
use mlua_isle.Cancel.{Tree}
use mlua_isle.Cancel.Flags.{IsLater, child_token-IsLater, cancel-IsLater, cancel_self}
use mlua_isle.Scope.{
  World, closed, is_draining, new_scope, spawn, finish, add, new_task, start_body, out_of_time,
  undone, cancel_token,
}
use mlua_isle.Scope.Structure.{count-undone}
use mlua_isle.Scope.Structure.Spawns.{out_of_time-open}
use mlua_isle.Scope.Tokens.{IsCancelling, IsOnward-IsCancelling, cancel_token-IsOnward}

module _ {N : Notify} {V : Type 0} where
  new_task-IsCancelling : (i : ℕ) (w : World N V) → IsCancelling w → IsCancelling (new_task i w)
  unfolding new_task
  new_task-IsCancelling i w h =
      let (l, e, n) = child_token-IsLater (w.scope i).token w.tree in
      record {
        bounded = λ t b. ground (arith, h.bounded t, e, n);
        listed = λ p t b c. omega (arith, h.listed p t b c);
        ending = λ p t b q c d.
            ground (
              arith,
              h.ending p t b q c,
              h.listed p t b c,
              h.bounded t,
              l.flagged (w.task t).token,
            );
      }

  pub finish-IsCancelling : (t : ℕ) (w : World N V) → IsCancelling w → IsCancelling (finish t w)
  unfolding finish
  finish-IsCancelling t w h = elim (Bool-cases (w.task t).done) [
    | inl e ↦ rw e h
    | inr e ↦ rw e (record {
      bounded = λ x b. ground (arith, h.bounded x);
      listed = h.listed;
      ending = λ p x b q c d. ground (arith, h.ending p x b q c);
    })
  ]

  start_body-IsCancelling :
      (grace i t : ℕ) (w : World N V) → IsCancelling w → IsCancelling (start_body grace i t w)
  unfolding start_body new_scope
  start_body-IsCancelling grace i t w h = record {
    bounded = λ x b. ground (arith, h.bounded x);
    listed = λ p x b c. ground (arith, h.listed p x);
    ending = λ p x b q c d. ground (arith, h.ending p x);
  }

  -- A task that is added to a draining scope is cancelled first.
  add-IsCancelling :
      (i t : ℕ) (w : World N V)
      → i < w.next_scope
      → t < w.next_task
      → (w.scope i).phase ≢ closed
      → IsCancelling w
      → IsCancelling (add i t w)
  unfolding add
  add-IsCancelling i t w l b n h =
      let k = λ (x : ℕ). count-undone w.task x (w.scope i).children in
      let a = λ (x : ℕ). count-append x (undone w.task (w.scope i).children) (t ∷ []) in
      let m = (w.task t).token in
      let g = cancel-IsLater m w.tree in
      elim (Bool-cases (is_draining (w.scope i).phase)) [
        | inl e ↦ rw e (record {
          bounded = λ x q. omega (arith, h.bounded x q, g.longer);
          listed = λ p x q c. ground (arith, h.listed p x, k x, a x);
          ending = λ p x q r c d. ground (
            arith,
            h.ending p x,
            e,
            k x,
            a x,
            h.listed p x,
            h.bounded x,
            g.flagged (w.task x).token,
            cancel_self m w.tree (h.bounded t b),
          );
        })
        | inr e ↦ rw e (record {
          bounded = h.bounded;
          listed = λ p x q c. ground (arith, h.listed p x, k x, a x);
          ending = λ p x q r c d. ground (arith, h.ending p x, e, n);
        })
      ]

  pub spawn-IsCancelling :
      (grace i : ℕ) (w : World N V)
      → i < w.next_scope
      → IsCancelling w
      → IsCancelling (spawn grace i w).0
  unfolding spawn new_task start_body
  spawn-IsCancelling grace i w l h =
      let t = w.next_task in
      let u = new_task i w in
      let h' = new_task-IsCancelling i w h in
      elim (Bool-cases (out_of_time (w.scope i) w.now)) [
        | inl e ↦
            let n = (u.task t).token in
            rw e (
              finish-IsCancelling t (cancel_token n u)
                (IsOnward-IsCancelling (cancel_token-IsOnward n u) h'))
        | inr e ↦
            let v = start_body grace i t u in
            rw e (
              add-IsCancelling i t v (omega (arith, l)) (omega arith)
                (ground (arith, l, out_of_time-open (w.scope i) w.now e))
                (start_body-IsCancelling grace i t u h'))
      ]

  -- A scope that has just started has no task.
  pub started-IsCancelling :
      (token grace : ℕ) (tree : Tree N) (w : World N V)
      → IsLater w.tree tree
      → IsCancelling w
      → IsCancelling (record w {
        tree = tree;
        scope = update w.scope w.next_scope (new_scope token grace none);
        held = update w.held w.next_scope true;
        next_scope = w.next_scope + 1;
      })
  unfolding new_scope
  started-IsCancelling token grace tree w l h = record {
    bounded = λ t b. omega (arith, h.bounded t b, l.longer);
    listed = λ p t b c. ground (arith, h.listed p t);
    ending = λ p t b q c d.
        ground (arith, h.ending p t, h.listed p t, h.bounded t, l.flagged (w.task t).token);
  }
