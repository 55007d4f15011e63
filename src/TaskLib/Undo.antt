-- ===== src/TaskLib/Undo.antt =====
-- src/task_lib.rs and src/select.rs: a handler of a select that was not entered.
use mlua_isle.Base.{
  ℕ, ◌≡◌, refl, ap, ◌∙◌, true, false, none, some, get_elem?, arith, Bool-cases, inl, inr, ◌==◌,
  ==_refl, update,
}
use mlua_isle.Tokio.{Env}
use mlua_isle.Select.{
  World, Task, TaskArm, task, SelectFuture, Values, join, untake, untake_task, set_task,
}
use mlua_isle.TaskLib.Channels.{handler_failed}

restored :
    {E : Env} (t : Task E)
    → t.joined ≡ false
    → t.known ≡ true
    → record t { joined = false; known = true } ≡ t
restored t j k = ground (arith, j, k)

module _ (E : Env) where
  -- When a select chose the case of a task that could be joined, and its handler fails before it is
  -- entered, every task is as it was before the choice: it can be joined again, with its result.
  pub handler_failed_restores :
      (a : TaskArm E) (w : World E) (values : Values E) (i : ℕ) (f : SelectFuture E) (id : ℕ)
      → (w.tasks a.id).joined ≡ false
      → (w.tasks a.id).known ≡ true
      → get_elem? f.arms i ≡ some (task (join a w).1)
      → (handler_failed E i values f (join a w).0).0.tasks id ≡ w.tasks id
  unfolding handler_failed untake untake_task join set_task
  handler_failed_restores a w values i f id j k e =
      let t = w.tasks a.id in
      let b : TaskArm E = record a { taken = some t.result } in
      let u : World E = record w {
        tasks = update w.tasks a.id (record t { joined = true; known = false; result = none });
      } in
      let x : (join a w).0 ≡ u = rw (join, j) refl in
      let y : (join a w).1 ≡ b = rw (join, j) refl in
      let g : get_elem? f.arms i ≡ some (task b) = e ∙ ap (λ c. some (task c)) y in
      let z : (handler_failed E i values f u).0 ≡ record u {
        tasks =
            update u.tasks a.id
              (record (u.tasks a.id) { result = t.result; known = true; joined = false });
      } =
        rw (handler_failed, g) refl in
      ap (λ v. (handler_failed E i values f v).0.tasks id) x
      ∙ ap (λ v. v.tasks id) z
      ∙ (elim (Bool-cases (a.id == id)) [
        | inl q ↦
            let same : a.id ≡ id = ground (arith, q) in
            ground (arith, q, j, k, same, ==_refl a.id, restored t j k)
        | inr q ↦ ground (arith, q)
      ])
