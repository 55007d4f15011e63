-- ===== src/Scope/Tasks.antt =====
-- src/scope.rs: what a spawned task and its handle give.
use mlua_isle.Base.{
  ℕ, ◌≡◌, ◌<◌, refl, sym, ap, ◌∙◌, subst, true, false, [], ◌∷◌, none, some, err, ready, pending,
  count, count-append, arith,
}
use mlua_isle.Tokio.{Notify}
use mlua_isle.Error.{IsleError}
use mlua_isle.Cancel.{is_cancelled}
use mlua_isle.Cancel.Flags.{child_token-IsLater, cancel_self}
use mlua_isle.Scope.Structure.Spawns.{add_lem}
use mlua_isle.Scope.{
  World, Scope, new_scope, spawn, finish, add, new_task, start_body, out_of_time, undone,
  cancel_token, ok_or_cancelled, spawn_local, ScopedTask, poll,
}

module _ {N : Notify} {V : Type 0} where
  finish_lem :
      (t : ℕ) (w : World N V)
      → (w.task t).done ≡ false
      → let u = finish t w in
        (u.next_scope ≡ w.next_scope)
        × (u.body ≡ w.body)
        × (u.result ≡ w.result)
        × ((u.task t).done ≡ true)
        × ((u.task t).token ≡ (w.task t).token)
        × (u.tree.node ≡ w.tree.node)
  unfolding finish
  finish_lem t w e = rw e (refl, refl, refl, ground arith, ground arith, refl)

  -- A new task is not done, its slot is empty, and its token is there.
  fresh_lem :
      (i : ℕ) (w : World N V)
      → let u = new_task i w in
        let t = w.next_task in
        (u.body t ≡ none)
        × (u.result t ≡ none)
        × ((u.task t).done ≡ false)
        × ((u.task t).token < u.tree.next)
        × (u.next_scope ≡ w.next_scope)
  unfolding new_task
  fresh_lem i w =
      let (_, e, n) = child_token-IsLater (w.scope i).token w.tree in
      (ground arith, ground arith, ground arith, ground (arith, e, n), refl)

  added_listed : (i t : ℕ) (w : World N V) → 0 < count t ((add i t w).scope i).children
  added_listed i t w =
      subst (λ (f : ℕ → Scope). 0 < count t (f i).children)
        (sym (ap (λ x. x.scope) (add_lem i t w)))
        (ground (arith, count-append t (undone w.task (w.scope i).children) (t ∷ [])))

  poll_done :
      (s : ScopedTask) (k : ℕ) (w : World N V)
      → (w.task s.state).done ≡ true
      → (poll s k w).2 ≡ ready (ok_or_cancelled (w.result s.state))
  unfolding poll
  poll_done s k w e = rw e refl

  poll_undone :
      (s : ScopedTask) (k : ℕ) (w : World N V)
      → (w.task s.state).done ≡ false
      → (poll s k w).2 ≡ pending
  unfolding poll
  poll_undone s k w e = rw e refl

  -- A scope that is closed, or that drains and whose deadline has passed, starts nothing: no scope is
  -- made for the task, its future has no run, its token is cancelled, and the first poll of the handle
  -- gives the error of a cancel.
  pub spawn_too_late :
      (i k : ℕ) (w : World N V)
      → out_of_time (w.scope i) w.now ≡ true
      → let (u, s) = spawn_local i w in
        (u.next_scope ≡ w.next_scope)
        × (u.body s.state ≡ none)
        × (is_cancelled (u.task s.state).token u.tree ≡ true)
        × ((poll s k u).2 ≡ ready (err IsleError.cancelled))
  unfolding spawn_local spawn is_cancelled
  spawn_too_late i k w e =
      let t = w.next_task in
      let u = new_task i w in
      let n = (u.task t).token in
      let (b, r, d, l, c) = fresh_lem i w in
      let (c', b', r', d', n', f) = finish_lem t (cancel_token n u) d in
      let s : ScopedTask = record { state = t; wait = none; detached = false } in
      let v = finish t (cancel_token n u) in
      rw e (
        c' ∙ c,
        ap (λ g. g t) b' ∙ b,
        ap (λ m. (v.tree.node m).flag) n' ∙ ap (λ g. (g n).flag) f ∙ cancel_self n u.tree l,
        poll_done s k v d'
            ∙ ap (λ g. ready (ok_or_cancelled (g t))) r'
            ∙ ap (λ o. ready (ok_or_cancelled o)) r,
      )

  -- A scope that runs, or that drains and whose deadline has not passed, starts a task whose future runs
  -- in a new scope below it with the same grace; the task is on its list and not done, and the first
  -- poll of the handle waits.
  pub spawn_in_time :
      (i k : ℕ) (w : World N V)
      → out_of_time (w.scope i) w.now ≡ false
      → i < w.next_scope
      → let (u, s) = spawn_local i w in
        let c = w.next_scope in
        (u.body s.state ≡ some c)
        × ((u.scope c).parent ≡ some i)
        × ((u.scope c).grace ≡ (w.scope i).grace)
        × ((u.scope c).token ≡ (u.task s.state).token)
        × (0 < count s.state (u.scope i).children)
        × ((poll s k u).2 ≡ pending)
  unfolding spawn_local spawn start_body new_task new_scope
  spawn_in_time i k w e l =
      let t = w.next_task in
      let u = new_task i w in
      let v = start_body (w.scope i).grace i t u in
      let a = add_lem i t v in
      let s : ScopedTask = record { state = t; wait = none; detached = false } in
      let c = w.next_scope in
      let body = ap (λ x. x.body) a in
      let task = ap (λ x. x.task) a in
      let scope = ap (λ x. x.scope) a in
      let own : v.body t ≡ some c = ground arith in
      let undone' : (v.task t).done ≡ false = ground arith in
      rw e (
        ap (λ f. f t) body ∙ own,
        ap (λ f. (f c).parent) scope ∙ ground (arith, l),
        ap (λ f. (f c).grace) scope ∙ ground (arith, l),
        ap (λ f. (f c).token) scope ∙ (ground (arith, l)) ∙ sym (ap (λ f. (f t).token) task),
        added_listed i t v,
        poll_undone s k (add i t v) (ap (λ f. (f t).done) task ∙ undone'),
      )
