-- ===== src/Scope/Tokens.antt =====
-- src/scope.rs: the tokens of the tasks of a scope that ends.
pub mod Spawns
pub mod Steps
use mlua_isle.Base.{
  ℕ, suc, ◌+◌, ◌≡◌, ◌≢◌, ◌<◌, ◌⊎◌, refl, sym, ap, ◌∙◌, subst, Bool, true, false, List, [], ◌∷◌,
  ◌++◌, Option, none, some, if◌then◌else◌, update, update_self, count, ◌==◌, arith, Bool-cases, inl,
  inr,
}
use mlua_isle.Tokio.{Notify}
use mlua_isle.Cancel.{Tree, cancel, is_cancelled}
use mlua_isle.Cancel.Flags.{IsLater, IsLater-trans, cancel-IsLater, cancel_self, cancel_next}
use mlua_isle.Scope.{
  World, TaskState, Scope, Phase, running, draining, closed, cancel_token, set_scope, each_task,
  cancel_one, abort_one,
}

module _ {N : Notify} {V : Type 0} where
  -- The tasks of a scope that is not running are done or cancelled.
  pub record IsCancelling (w : World N V) : Type 0 where
    pub bounded : (t : ℕ) → t < w.next_task → (w.task t).token < w.tree.next
    pub listed : (p t : ℕ) → p < w.next_scope → 0 < count t (w.scope p).children → t < w.next_task
    pub ending :
        (p t : ℕ)
        → p < w.next_scope
        → (w.scope p).phase ≢ running
        → 0 < count t (w.scope p).children
        → (w.task t).done ≡ false
        → (w.tree.node (w.task t).token).flag ≡ true

  -- `u` comes from `w` with the same scopes, and the same tasks with the same tokens.
  pub record IsOnward (w u : World N V) : Type 0 where
    pub tasks : u.next_task ≡ w.next_task
    pub scopes : (p : ℕ) → u.scope p ≡ w.scope p
    pub scope_count : u.next_scope ≡ w.next_scope
    pub tokens : (t : ℕ) → (u.task t).token ≡ (w.task t).token
    pub dones : (t : ℕ) → (u.task t).done ≡ (w.task t).done
    pub later : IsLater w.tree u.tree

  pub cancel_token-IsOnward : (n : ℕ) (w : World N V) → IsOnward w (cancel_token n w)
  cancel_token-IsOnward n w = record {
    tasks = refl;
    scopes = λ p. refl;
    scope_count = refl;
    tokens = λ t. refl;
    dones = λ t. refl;
    later = cancel-IsLater n w.tree;
  }

  pub IsOnward-trans : {w u v : World N V} → IsOnward w u → IsOnward u v → IsOnward w v
  IsOnward-trans h k = record {
    tasks = k.tasks ∙ h.tasks;
    scopes = λ p. k.scopes p ∙ h.scopes p;
    scope_count = k.scope_count ∙ h.scope_count;
    tokens = λ t. k.tokens t ∙ h.tokens t;
    dones = λ t. k.dones t ∙ h.dones t;
    later = IsLater-trans h.later k.later;
  }

  IsOnward-refl : (w : World N V) → IsOnward w w
  IsOnward-refl w = record {
    tasks = refl;
    scopes = λ p. refl;
    scope_count = refl;
    tokens = λ t. refl;
    dones = λ t. refl;
    later = record { longer = omega arith; flagged = λ j l e. e };
  }

  -- Whether the tasks of the scopes of `w` that are not running are cancelled in `tree`.
  abbrev Ending : World N V → Tree N → Type 0
  Ending w tree =
      (p t : ℕ)
      → p < w.next_scope
      → (w.scope p).phase ≢ running
      → 0 < count t (w.scope p).children
      → (w.task t).done ≡ false
      → (tree.node (w.task t).token).flag ≡ true

  carried :
      {w u : World N V}
      → IsOnward w u
      → ((t : ℕ) → t < w.next_task → (w.task t).token < w.tree.next)
      → ((p t : ℕ) → p < w.next_scope → 0 < count t (w.scope p).children → t < w.next_task)
      → Ending w u.tree
      → IsCancelling u
  carried {w} {u} k b s f = record {
    bounded = λ t l. ground (arith, k.tokens t, k.tasks, b t, k.later.longer);
    listed = λ p t l c.
        let m : p < w.next_scope = omega (arith, l, k.scope_count) in
        rw k.tasks (s p t m (subst (λ x. 0 < count t x.children) (k.scopes p) c));
    ending = λ p t l n c d.
        let m : p < w.next_scope = omega (arith, l, k.scope_count) in
        let c' = subst (λ x. 0 < count t x.children) (k.scopes p) c in
        rw (k.tokens t)
          (f p t m (λ q. n (ap (λ x. x.phase) (k.scopes p) ∙ q)) c' (sym (k.dones t) ∙ d));
  }

  pub IsOnward-IsCancelling : {w u : World N V} → IsOnward w u → IsCancelling w → IsCancelling u
  IsOnward-IsCancelling {w} {u} k h = carried k h.bounded h.listed (λ p t l n c d.
      k.later.flagged (w.task t).token (h.bounded t (h.listed p t l c)) (h.ending p t l n c d))

  -- What is done to each task of a list: its token is cancelled.
  pub record IsCancel (f : ℕ → World N V → World N V) : Type 0 where
    pub onward : (t : ℕ) (w : World N V) → IsOnward w (f t w)
    pub flags :
        (t : ℕ) (w : World N V)
        → (w.task t).token < w.tree.next
        → ((f t w).tree.node (w.task t).token).flag ≡ true

  pub each_task-IsOnward :
      (f : ℕ → World N V → World N V)
      → IsCancel f
      → (ts : List ℕ) (w : World N V) → IsOnward w (each_task f ts w)
  each_task-IsOnward f h [] w = IsOnward-refl w
  each_task-IsOnward f h (t ∷ ts) w =
      IsOnward-trans (h.onward t w) (each_task-IsOnward f h ts (f t w))

  pub each_task_flags :
      (f : ℕ → World N V → World N V)
      → IsCancel f
      → (ts : List ℕ) (w : World N V) (t : ℕ) → 0 < count t ts
      → (w.task t).token < w.tree.next
      → ((each_task f ts w).tree.node (w.task t).token).flag ≡ true
  each_task_flags f h [] w t c b = absurd (omega (arith, c))
  each_task_flags f h (x ∷ xs) w t c b =
      let u = f x w in
      let o = h.onward x w in
      let k = each_task-IsOnward f h xs u in
      let b' : (w.task t).token < u.tree.next = omega (arith, b, o.later.longer) in
      elim (Bool-cases (x == t)) [
        | inl e ↦
            let q : x ≡ t = ground (arith, e) in
            k.later.flagged (w.task t).token b' (
              subst (λ y. ((f y w).tree.node (w.task t).token).flag ≡ true) (sym q) (h.flags t w b))
        | inr e ↦
            subst (λ n. ((each_task f xs u).tree.node n).flag ≡ true) (o.tokens t)
              (each_task_flags f h xs u t (ground (arith, c, e)) (rw (o.tokens t) b'))
      ]

  pub cancel_one-IsCancel : IsCancel cancel_one
  cancel_one-IsCancel = record {
    onward = λ t w. cancel_token-IsOnward (w.task t).token w;
    flags = λ t w b. cancel_self (w.task t).token w.tree b;
  }

  abort_one_tree : (t : ℕ) (w : World N V) → (abort_one t w).tree ≡ cancel (w.task t).token w.tree
  abort_one_tree t w = elim (Bool-cases (w.task t).abort) [ inl e ↦ rw e refl | inr e ↦ rw e refl ]

  abort_one-IsOnward : (t : ℕ) (w : World N V) → IsOnward w (abort_one t w)
  abort_one-IsOnward t w =
      let n = (w.task t).token in
      elim (Bool-cases (w.task t).abort) [
        | inl e ↦ rw e (record {
          tasks = refl;
          scopes = λ p. refl;
          scope_count = refl;
          tokens = λ x. ground arith;
          dones = λ x. ground arith;
          later = cancel-IsLater n w.tree;
        })
        | inr e ↦ rw e (cancel_token-IsOnward n w)
      ]

  pub abort_one-IsCancel : IsCancel abort_one
  abort_one-IsCancel = record {
    onward = abort_one-IsOnward;
    flags = λ t w b. rw (abort_one_tree t w) (cancel_self (w.task t).token w.tree b);
  }

  -- Scope `i` leaves its phase, and each of its tasks has its token cancelled.
  pub ended-IsCancelling :
      (f : ℕ → World N V → World N V) (i : ℕ) (d : Scope) (w : World N V)
      → IsCancel f
      → d.children ≡ (w.scope i).children
      → i < w.next_scope
      → IsCancelling w
      → (let v = set_scope w i d in IsCancelling (each_task f (v.scope i).children v))
  ended-IsCancelling f i d w g e l h =
      let v = set_scope w i d in
      let o = each_task-IsOnward f g d.children v in
      let listed : (p t : ℕ)
          → p < w.next_scope
          → 0 < count t (v.scope p).children
          → t < w.next_task =
        λ p t m c. ground (arith, e, h.listed p t, h.listed i t) in
      rw (update_self w.scope i d) (
        carried o h.bounded listed (λ p t m n c x.
          let b = h.bounded t (listed p t m c) in
          elim (Bool-cases (i == p)) [
            | inl q ↦ each_task_flags f g d.children v t (ground (arith, c, q)) b
            | inr q ↦ o.later.flagged (w.task t).token b (ground (arith, h.ending p t m, n, c, q))
          ]))
