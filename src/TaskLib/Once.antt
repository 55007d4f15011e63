-- ===== src/TaskLib/Once.antt =====
-- src/task_lib.rs: the result of a task is delivered once, and a handle knows its task until then.
use mlua_isle.TaskLib.Sound.{
  IsSound, one_if_some, world-IsSound, usable_lem, spawn-IsSound, join-IsSound, waited-IsSound,
  chosen-IsSound, drop-IsSound, gone-IsSound, arm-IsSound, give_back-IsSound,
}
use mlua_isle.Base.{
  ℕ, suc, ◌+◌, ◌≡◌, ◌≤◌, ◌<◌, refl, true, false, ◌&&◌, List, [], ◌∷◌, Option, none, some, ok, err,
  update, count, arith, Bool-cases, Option-cases, inl, inr,
}
use mlua_isle.Tokio.{Notify}
use mlua_isle.Protect.{Value}
use mlua_isle.Scope.{World, spawn, cancel_token, out_of_time}
use mlua_isle.TaskLib.{
  Values, Join, already_joined, spawn_task, end_task, join, poll_join, cancel, cancel_raw, close,
  collect, choose, task_case, give_back, get, forget, restore, take_result,
}
use mlua_isle.TaskLib.Runs.{
  System, Event, scopes, spawns, ends, joins, closes, polls, drops, cancels, collects, arms,
  chooses, gives_back, step, exec, no_tasks, usable, member, remove,
}

module _ {N : Notify} where
  spawns-IsSound :
      (marker : Value) (s : System N) (grace : ℕ)
      → IsSound s
      → IsSound (step marker s (spawns grace))
  unfolding step spawn_task spawn
  spawns-IsSound marker s grace h = elim (Option-cases s.vm.world.current) [
    | inl e ↦ let k : step marker s (spawns grace) ≡ s = ground (arith, e) in rw k h
    | inr (i, e) ↦
        let w = (spawn grace i s.vm.world).0 in
        let t = s.vm.world.next_task in
        let k : step marker s (spawns grace) ≡ record s {
          vm = record {
            world = w;
            tasks = update s.vm.tasks s.vm.next_id (some t);
            next_id = suc s.vm.next_id;
            joined = update s.vm.joined s.vm.next_id false;
          };
          spawned = update s.spawned s.vm.next_id t;
        } =
          elim (Bool-cases (out_of_time (s.vm.world.scope i) s.vm.world.now)) [
            | inl o ↦ ground (arith, e, o)
            | inr o ↦ ground (arith, e, o)
          ] in
        rw k (spawn-IsSound s w t h)
  ]

  joins-IsSound :
      (marker : Value) (s : System N) (id : ℕ) → IsSound s → IsSound (step marker s (joins id))
  unfolding step join get
  joins-IsSound marker s id h = elim (Bool-cases (usable s id)) [
    | inr u ↦ let k : step marker s (joins id) ≡ s = rw (step, u) refl in rw k h
    | inl u ↦ elim (Bool-cases (s.vm.joined id)) [
      | inl e ↦ let k : step marker s (joins id) ≡ s = rw (step, u, e) refl in rw k h
      | inr e ↦
          let (l, g) = usable_lem s id u in
          let j : Join = record { id = id; task = s.spawned id } in
          let k : step marker s (joins id) ≡ record s {
            vm = record (s.vm) { joined = update s.vm.joined id true };
            waits = update s.waits id (some j);
          } =
            rw (step, u, join, get, e, h.known id l e g) refl in
          rw k (join-IsSound s id j e l refl h)
    ]
  ]

  -- A call of `close` cancels the task of its handle and joins it.
  closes-IsSound :
      (marker : Value) (s : System N) (id : ℕ) → IsSound s → IsSound (step marker s (closes id))
  unfolding step close cancel_raw join get
  closes-IsSound marker s id h = elim (Bool-cases (usable s id)) [
    | inr u ↦ let k : step marker s (closes id) ≡ s = rw (step, u) refl in rw k h
    | inl u ↦ elim (Bool-cases (s.vm.joined id)) [
      | inl e ↦ let k : step marker s (closes id) ≡ s = rw (step, u, close, e) refl in rw k h
      | inr e ↦
          let (l, g) = usable_lem s id u in
          let t = s.spawned id in
          let j : Join = record { id = id; task = t } in
          let w = cancel_token (s.vm.world.task t).token s.vm.world in
          let v = record s { vm = record (s.vm) { world = w } } in
          let k : step marker s (closes id) ≡ record v {
            vm = record (v.vm) { joined = update s.vm.joined id true };
            waits = update s.waits id (some j);
          } =
            ground (arith, u, e, h.known id l e g) in
          rw k (join-IsSound v id j e l refl (world-IsSound s w h))
    ]
  ]

  polls-IsSound :
      (marker : Value) (s : System N) (id : ℕ) → IsSound s → IsSound (step marker s (polls id))
  unfolding step poll_join take_result forget
  polls-IsSound marker s id h = elim (Option-cases (s.waits id)) [
    | inl e ↦ let k : step marker s (polls id) ≡ s = rw (step, e) refl in rw k h
    | inr (j, e) ↦ elim (Bool-cases (s.vm.world.task j.task).done) [
      | inr f ↦ let k : step marker s (polls id) ≡ s = ground (arith, e, f) in rw k h
      | inl f ↦
          let i = h.wait_id id j e in
          let w = record (s.vm.world) { result = update s.vm.world.result j.task none } in
          let c : s.vm.joined id ≡ true = elim (Bool-cases (s.vm.joined id)) [
            | inl x ↦ x
            | inr x ↦ absurd (ground (arith, h.fresh id x, e))
          ] in
          let l : id < s.vm.next_id = ground (arith, h.below id, e) in
          let k : step marker s (polls id) ≡ record s {
            vm = record (s.vm) { world = w; tasks = update s.vm.tasks id none };
            waits = update s.waits id none;
            taken = id ∷ s.taken;
          } =
            ground (arith, e, f, i) in
          rw k (waited-IsSound s w id (ground (arith, h.once id, e)) c l h)
    ]
  ]

  cancels-IsSound :
      (marker : Value) (s : System N) (id : ℕ) → IsSound s → IsSound (step marker s (cancels id))
  unfolding step cancel cancel_raw get
  cancels-IsSound marker s id h = elim (Bool-cases (usable s id)) [
    | inr u ↦ let k : step marker s (cancels id) ≡ s = rw (step, u) refl in rw k h
    | inl u ↦ elim (Bool-cases (s.vm.joined id)) [
      | inl e ↦ let k : step marker s (cancels id) ≡ s = rw (step, u, cancel, e) refl in rw k h
      | inr e ↦
          let (l, g) = usable_lem s id u in
          let w = cancel_token (s.vm.world.task (s.spawned id)).token s.vm.world in
          let k : step marker s (cancels id) ≡ record s { vm = record (s.vm) { world = w } } =
            rw (step, u, cancel, cancel_raw, get, e, h.known id l e g) refl in
          rw k (world-IsSound s w h)
    ]
  ]

  collects-IsSound :
      (marker : Value) (s : System N) (id : ℕ) → IsSound s → IsSound (step marker s (collects id))
  unfolding step collect forget
  collects-IsSound marker s id h = elim (Bool-cases (usable s id)) [
    | inr u ↦ let k : step marker s (collects id) ≡ s = rw (step, u) refl in rw k h
    | inl u ↦
        let (l, g) = usable_lem s id u in
        elim (Bool-cases (s.vm.joined id)) [
          | inl e ↦
              let k : step marker s (collects id) ≡ record s { gone = update s.gone id true } =
                rw (step, u, collect, e) refl in
              rw k (gone-IsSound s id s.vm refl refl (λ x f. refl) (λ t f. f) l h)
          | inr e ↦
              let w = cancel_token (s.vm.world.task (s.spawned id)).token s.vm.world in
              let vm = record (s.vm) { world = w; tasks = update s.vm.tasks id none } in
              let k : step marker s (collects id)
                  ≡ record s { vm = vm; gone = update s.gone id true } =
                rw (step, u, collect, e, h.known id l e g) refl in
              rw k (
                gone-IsSound s id vm refl refl (λ x f. ground (arith, f))
                  (λ t f. absurd (ground (arith, f))) l h)
        ]
  ]

  arms-IsSound :
      (marker : Value) (s : System N) (id : ℕ) → IsSound s → IsSound (step marker s (arms id))
  unfolding step task_case get
  arms-IsSound marker s id h = elim (Bool-cases (usable s id)) [
    | inr u ↦ let k : step marker s (arms id) ≡ s = rw (step, u) refl in rw k h
    | inl u ↦ elim (Bool-cases (s.vm.joined id)) [
      | inl e ↦ let k : step marker s (arms id) ≡ s = rw (step, u, task_case, e) refl in rw k h
      | inr e ↦
          let (l, g) = usable_lem s id u in
          let k : step marker s (arms id)
              ≡ record s { arm = update s.arm id (some (s.spawned id)) } =
            rw (step, u, task_case, get, e, h.known id l e g) refl in
          rw k (arm-IsSound s id (s.spawned id) l refl h)
    ]
  ]

  chooses-IsSound :
      (marker : Value) (s : System N) (id : ℕ) → IsSound s → IsSound (step marker s (chooses id))
  unfolding step choose take_result forget
  chooses-IsSound marker s id h = elim (Bool-cases (usable s id)) [
    | inr u ↦ let k : step marker s (chooses id) ≡ s = rw (step, u) refl in rw k h
    | inl u ↦ elim (Option-cases (s.arm id)) [
      | inl a ↦ let k : step marker s (chooses id) ≡ s = rw (step, u, a) refl in rw k h
      | inr (t, a) ↦ elim (Bool-cases (s.vm.joined id)) [
        | inl e ↦ let k : step marker s (chooses id) ≡ s = ground (arith, u, a, e) in rw k h
        | inr e ↦
            let w = record (s.vm.world) { result = update s.vm.world.result t none } in
            let k : step marker s (chooses id) ≡ record s {
              vm = record (s.vm) {
                world = w;
                tasks = update s.vm.tasks id none;
                joined = update s.vm.joined id true;
              };
              taken = id ∷ s.taken;
            } =
              ground (arith, u, a, e) in
            rw k (chosen-IsSound s w id e (usable_lem s id u).0 h)
      ]
    ]
  ]

  gives_back-IsSound :
      (marker : Value) (s : System N) (id : ℕ) (taken : Option Values)
      → IsSound s
      → IsSound (step marker s (gives_back id taken))
  unfolding step give_back restore
  gives_back-IsSound marker s id taken h = elim (Bool-cases (usable s id && member id s.taken)) [
    | inr u ↦ let k : step marker s (gives_back id taken) ≡ s = rw (step, u) refl in rw k h
    | inl u ↦ elim (Option-cases (s.arm id)) [
      | inl a ↦ let k : step marker s (gives_back id taken) ≡ s = rw (step, u, a) refl in rw k h
      | inr (t, a) ↦
          let w = record (s.vm.world) { result = update s.vm.world.result t taken } in
          let k : step marker s (gives_back id taken) ≡ record s {
            vm = record (s.vm) {
              world = w;
              tasks = update s.vm.tasks id (some t);
              joined = update s.vm.joined id false;
            };
            taken = remove id s.taken;
          } =
            rw (step, u, a) refl in
          rw k (
            give_back-IsSound s w id t (ground (arith, u)) (h.arm_below id t a) (h.arm_task id t a)
              h)
    ]
  ]

  step-IsSound :
      (marker : Value) (e : Event N) (s : System N) → IsSound s → IsSound (step marker s e)
  unfolding step end_task
  step-IsSound marker (scopes w) s h = world-IsSound s w h
  step-IsSound marker (spawns grace) s h = spawns-IsSound marker s grace h
  step-IsSound marker (ends t out) s h = world-IsSound s (end_task t out s.vm).world h
  step-IsSound marker (joins id) s h = joins-IsSound marker s id h
  step-IsSound marker (closes id) s h = closes-IsSound marker s id h
  step-IsSound marker (polls id) s h = polls-IsSound marker s id h
  step-IsSound marker (drops id) s h = drop-IsSound s id h
  step-IsSound marker (cancels id) s h = cancels-IsSound marker s id h
  step-IsSound marker (collects id) s h = collects-IsSound marker s id h
  step-IsSound marker (arms id) s h = arms-IsSound marker s id h
  step-IsSound marker (chooses id) s h = chooses-IsSound marker s id h
  step-IsSound marker (gives_back id taken) s h = gives_back-IsSound marker s id taken h

  exec-IsSound :
      (marker : Value) (es : List (Event N)) (s : System N) → IsSound s → IsSound (exec marker s es)
  unfolding exec
  exec-IsSound marker [] s h = h
  exec-IsSound marker (e ∷ es) s h =
      exec-IsSound marker es (step marker s e) (step-IsSound marker e s h)

  no_tasks-IsSound : (w : World N Values) → IsSound (no_tasks w)
  no_tasks-IsSound w = record {
    once = λ x. omega arith;
    below = λ x l. omega arith;
    fresh = λ x e. omega arith;
    known = λ x l e g. absurd (omega (arith, l));
    wait_id = λ x j e. absurd (ground (arith, e));
    arm_below = λ x t e. absurd (ground (arith, e));
    arm_task = λ x t e. absurd (ground (arith, e));
    registered = λ x t e. absurd (ground (arith, e));
    never_gone = λ x l. refl;
  }

  -- In any run of Lua code that starts with no task, whatever the scopes do meanwhile, the result of a
  -- task is delivered at most once, by its joins and by its selects together (a result that a select
  -- gave back does not count), and while a join of it waits it was not delivered.
  pub delivered_once :
      (marker : Value) (w : World N Values) (es : List (Event N)) (id : ℕ)
      → let s = exec marker (no_tasks w) es in count id s.taken + one_if_some (s.waits id) ≤ 1
  delivered_once marker w es id = (exec-IsSound marker es (no_tasks w) (no_tasks-IsSound w)).once id

  -- In any run of Lua code that starts with no task, whatever the scopes do meanwhile, the join of a
  -- handle that was not joined and not collected waits for the task that its spawn made, and a second
  -- join raises `task already joined`.
  pub join_knows :
      (marker : Value) (w : World N Values) (es : List (Event N)) (id : ℕ)
      → id < (exec marker (no_tasks w) es).vm.next_id
      → (exec marker (no_tasks w) es).vm.joined id ≡ false
      → (exec marker (no_tasks w) es).gone id ≡ false
      → let s = exec marker (no_tasks w) es in
        ((join id s.vm).1 ≡ ok (record { id = id; task = s.spawned id }))
        × ((join id (join id s.vm).0).1 ≡ err already_joined)
  unfolding join get
  join_knows marker w es id l e g =
      let s : System N = exec marker (no_tasks w) es in
      let k = (exec-IsSound marker es (no_tasks w) (no_tasks-IsSound w)).known id l e g in
      ground (arith, e, k)
