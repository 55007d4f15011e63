-- ===== src/TaskLib/Sound.antt =====
-- src/task_lib.rs: what holds of the ids of the tasks, and what keeps it.
use mlua_isle.Base.{
  ℕ, suc, ◌+◌, ◌≡◌, ◌≤◌, ◌<◌, sym, ◌∙◌, true, false, List, [], ◌∷◌, Option, none, some, update,
  ◌==◌, count, arith, Bool-cases, inl, inr,
}
use mlua_isle.Tokio.{Notify}
use mlua_isle.Scope.{World}
use mlua_isle.TaskLib.{Values, Vm, Join}
use mlua_isle.TaskLib.Runs.{System, usable, member, remove}

abbrev pub one_if_some : Option Join → ℕ
one_if_some none = 0
one_if_some (some j) = 1

count-remove :
    (x id : ℕ) (ys : List ℕ) → member id ys ≡ true → count x ys ≡ count x (id ∷ remove id ys)
count-remove x id [] e = absurd (ground (arith, e))
count-remove x id (y ∷ ys) e = ground (arith, e, count-remove x id ys)

-- Every id is either new, or known, or waited for or delivered once.
pub record IsSound {N : Notify} (s : System N) : Type 0 where
  pub once : (id : ℕ) → count id s.taken + one_if_some (s.waits id) ≤ 1
  pub below : (id : ℕ) → s.vm.next_id ≤ id → count id s.taken + one_if_some (s.waits id) ≡ 0
  pub fresh : (id : ℕ) → s.vm.joined id ≡ false → count id s.taken + one_if_some (s.waits id) ≡ 0
  pub known :
      (id : ℕ)
      → id < s.vm.next_id
      → s.vm.joined id ≡ false
      → s.gone id ≡ false
      → s.vm.tasks id ≡ some (s.spawned id)
  pub wait_id : (id : ℕ) (j : Join) → s.waits id ≡ some j → j.id ≡ id
  pub arm_below : (id t : ℕ) → s.arm id ≡ some t → id < s.vm.next_id
  pub arm_task : (id t : ℕ) → s.arm id ≡ some t → t ≡ s.spawned id
  pub registered : (id t : ℕ) → s.vm.tasks id ≡ some t → t ≡ s.spawned id
  pub never_gone : (id : ℕ) → s.vm.next_id ≤ id → s.gone id ≡ false

module _ {N : Notify} where
  -- What a step keeps that changes the scopes only.
  pub world-IsSound :
      (s : System N) (w : World N Values)
      → IsSound s
      → IsSound (record s { vm = record (s.vm) { world = w } })
  world-IsSound s w h = record {
    once = h.once;
    below = h.below;
    fresh = h.fresh;
    known = h.known;
    wait_id = h.wait_id;
    arm_below = h.arm_below;
    arm_task = h.arm_task;
    registered = h.registered;
    never_gone = h.never_gone;
  }

  pub usable_lem :
      (s : System N) (id : ℕ) → usable s id ≡ true → (id < s.vm.next_id) × (s.gone id ≡ false)
  usable_lem s id e = ground (arith, e)

  pub spawn-IsSound :
      (s : System N) (w : World N Values) (t : ℕ)
      → IsSound s
      → IsSound (record s {
        vm = record {
          world = w;
          tasks = update s.vm.tasks s.vm.next_id (some t);
          next_id = suc s.vm.next_id;
          joined = update s.vm.joined s.vm.next_id false;
        };
        spawned = update s.spawned s.vm.next_id t;
      })
  spawn-IsSound s w t h = record {
    once = h.once;
    below = λ id l. h.below id (omega (arith, l));
    fresh = λ id e. ground (arith, h.fresh id, h.below id);
    known = λ id l e g. ground (arith, h.known id);
    wait_id = h.wait_id;
    arm_below = λ id x e. ground (arith, h.arm_below id x e);
    arm_task = λ id x e. ground (arith, h.arm_task id x e, h.arm_below id x e);
    registered = λ id x e. ground (arith, h.registered id x);
    never_gone = λ id l. h.never_gone id (omega (arith, l));
  }

  -- A handle is marked joined, with or without a wait.
  pub join-IsSound :
      (s : System N) (id : ℕ) (j : Join)
      → s.vm.joined id ≡ false
      → id < s.vm.next_id
      → j.id ≡ id
      → IsSound s
      → IsSound (record s {
        vm = record (s.vm) { joined = update s.vm.joined id true };
        waits = update s.waits id (some j);
      })
  join-IsSound s id j e l i h = record {
    once = λ x. ground (arith, h.once x, h.fresh id e);
    below = λ x k. ground (arith, h.below x k);
    fresh = λ x f. ground (arith, h.fresh x);
    known = λ x k f g. ground (arith, h.known x);
    wait_id = λ x y f. ground (arith, h.wait_id x y);
    arm_below = h.arm_below;
    arm_task = h.arm_task;
    registered = h.registered;
    never_gone = h.never_gone;
  }

  -- The result of a task is taken by the wait of a join.
  pub waited-IsSound :
      (s : System N) (w : World N Values) (id : ℕ)
      → count id s.taken ≡ 0
      → s.vm.joined id ≡ true
      → id < s.vm.next_id
      → IsSound s
      → IsSound (record s {
        vm = record (s.vm) { world = w; tasks = update s.vm.tasks id none };
        waits = update s.waits id none;
        taken = id ∷ s.taken;
      })
  waited-IsSound s w id c j l h = record {
    once = λ x. ground (arith, h.once x, c);
    below = λ x k. ground (arith, h.below x k);
    fresh = λ x f. ground (arith, h.fresh x f, j);
    known = λ x k f g. ground (arith, h.known x, j);
    wait_id = λ x y f. ground (arith, h.wait_id x y);
    arm_below = h.arm_below;
    arm_task = h.arm_task;
    registered = λ x t f. ground (arith, h.registered x t);
    never_gone = h.never_gone;
  }

  -- The result of a task is taken by a select.
  pub chosen-IsSound :
      (s : System N) (w : World N Values) (id : ℕ)
      → s.vm.joined id ≡ false
      → id < s.vm.next_id
      → IsSound s
      → IsSound (record s {
        vm = record (s.vm) {
          world = w;
          tasks = update s.vm.tasks id none;
          joined = update s.vm.joined id true;
        };
        taken = id ∷ s.taken;
      })
  chosen-IsSound s w id e l h = record {
    once = λ x. ground (arith, h.once x, h.fresh id e);
    below = λ x k. ground (arith, h.below x k);
    fresh = λ x f. ground (arith, h.fresh x);
    known = λ x k f g. ground (arith, h.known x);
    wait_id = h.wait_id;
    arm_below = h.arm_below;
    arm_task = h.arm_task;
    registered = λ x t f. ground (arith, h.registered x t);
    never_gone = h.never_gone;
  }

  pub drop-IsSound :
      (s : System N) (id : ℕ) → IsSound s → IsSound (record s { waits = update s.waits id none })
  drop-IsSound s id h = record {
    once = λ x. ground (arith, h.once x);
    below = λ x k. ground (arith, h.below x k);
    fresh = λ x f. ground (arith, h.fresh x f);
    known = h.known;
    wait_id = λ x y f. ground (arith, h.wait_id x y);
    arm_below = h.arm_below;
    arm_task = h.arm_task;
    registered = h.registered;
    never_gone = h.never_gone;
  }

  -- A handle goes; the registry may forget its task.
  pub gone-IsSound :
      (s : System N) (id : ℕ) (vm : Vm N)
      → vm.next_id ≡ s.vm.next_id
      → vm.joined ≡ s.vm.joined
      → ((x : ℕ) → (x == id) ≡ false → vm.tasks x ≡ s.vm.tasks x)
      → ((t : ℕ) → vm.tasks id ≡ some t → s.vm.tasks id ≡ some t)
      → id < s.vm.next_id
      → IsSound s
      → IsSound (record s { vm = vm; gone = update s.gone id true })
  gone-IsSound s id vm n j same kept l h = record {
    once = h.once;
    below = λ x k. h.below x (omega (arith, k, n));
    fresh = λ x f. ground (arith, h.fresh x, j, f);
    known = λ x k f g. ground (arith, h.known x, same x, n, j, k, f, g);
    wait_id = h.wait_id;
    arm_below = λ x t f. ground (arith, h.arm_below x t f, n);
    arm_task = h.arm_task;
    registered = λ x t f. elim (Bool-cases (x == id)) [
      | inl e ↦ ground (arith, h.registered x t, kept t, e, f)
      | inr e ↦ h.registered x t (sym (same x e) ∙ f)
    ];
    never_gone = λ x k. ground (arith, h.never_gone x, n, k, l);
  }

  pub arm-IsSound :
      (s : System N) (id t : ℕ)
      → id < s.vm.next_id
      → t ≡ s.spawned id
      → IsSound s
      → IsSound (record s { arm = update s.arm id (some t) })
  arm-IsSound s id t l e h = record {
    once = h.once;
    below = h.below;
    fresh = h.fresh;
    known = h.known;
    wait_id = h.wait_id;
    arm_below = λ x y f. ground (arith, h.arm_below x y);
    arm_task = λ x y f. ground (arith, h.arm_task x y, e);
    registered = h.registered;
    never_gone = h.never_gone;
  }

  -- A result is given back.
  pub give_back-IsSound :
      (s : System N) (w : World N Values) (id t : ℕ)
      → member id s.taken ≡ true
      → id < s.vm.next_id
      → t ≡ s.spawned id
      → IsSound s
      → IsSound (record s {
        vm = record (s.vm) {
          world = w;
          tasks = update s.vm.tasks id (some t);
          joined = update s.vm.joined id false;
        };
        taken = remove id s.taken;
      })
  give_back-IsSound s w id t m l e h = record {
    once = λ x. ground (arith, h.once x, count-remove x id s.taken m);
    below = λ x k. ground (arith, h.below x k, count-remove x id s.taken m);
    fresh = λ x f. ground (arith, h.fresh x, h.once x, count-remove x id s.taken m);
    known = λ x k f g. ground (arith, h.known x, e);
    wait_id = h.wait_id;
    arm_below = h.arm_below;
    arm_task = h.arm_task;
    registered = λ x y f. ground (arith, h.registered x y, e);
    never_gone = h.never_gone;
  }
