-- ===== src/Cancel/Await.antt =====
-- src/hook.rs, `CancelToken::cancelled`: the races of an await with cancels of other threads.
use mlua_isle.Base.{
  ℕ, zero, suc, ◌≡◌, ◌≤◌, ◌<◌, ◌⊎◌, true, false, List, [], ◌∷◌, count, count-append, arith,
  Bool-cases, inl, inr,
}
use mlua_isle.Cancel.{Tree, live, mark, each, cancel_in, cancel, is_cancelled, enable, cancelled}
use mlua_isle.Tokio.{Notify, NotifyLaws}

module _ {N : Notify} (laws : NotifyLaws N) where
  -- From `t` to `u`: no wake-up of task `w` is undone, a cancel of `j` wakes it if it waits there, and
  -- without a cancel it goes on waiting.
  abbrev Signals : ℕ → ℕ → Tree N → Tree N → Type 0
  Signals w j t u =
      (count w t.woken ≤ count w u.woken)
      × ((t.node j).flag ≡ false
          → (u.node j).flag ≡ true
          → laws.waits w (t.node j).notify ≡ true
          → count w t.woken < count w u.woken)
      × ((u.node j).flag ≡ false
          → ((t.node j).flag ≡ false) × ((u.node j).notify ≡ (t.node j).notify))

  Signals-refl : (w j : ℕ) (t : Tree N) → Signals w j t t
  Signals-refl w j t = ground arith

  Signals-trans : (w j : ℕ) (t u v : Tree N) → Signals w j t u → Signals w j u v → Signals w j t v
  Signals-trans w j t u v a b = ground arith

  mark-Signals : (w j i : ℕ) (t : Tree N) → Signals w j t (mark i t)
  unfolding mark
  mark-Signals w j i t =
      let woken = (N.notify_waiters (t.node i).notify).1 in
      ground (arith, count-append w t.woken woken, laws.wakes w (t.node i).notify)

  each-Signals :
      (w j : ℕ) (g : ℕ → Tree N → Tree N)
      → ((c : ℕ) (t : Tree N) → Signals w j t (g c t))
      → (cs : List ℕ) (t : Tree N) → Signals w j t (each g cs t)
  each-Signals w j g k [] t = Signals-refl w j t
  each-Signals w j g k (c ∷ cs) t =
      Signals-trans w j t (g c t) (each g cs (g c t)) (k c t) (each-Signals w j g k cs (g c t))

  cancel_in-Signals : (fuel : ℕ) (w j i : ℕ) (t : Tree N) → Signals w j t (cancel_in fuel i t)
  unfolding cancel_in
  cancel_in-Signals zero w j i t = Signals-refl w j t
  cancel_in-Signals (suc fuel) w j i t = elim (Bool-cases (t.node i).flag) [
    | inl e ↦ rw e (Signals-refl w j t)
    | inr e ↦ rw e (
        Signals-trans w j t (mark i t)
          (each (cancel_in fuel) (live t.alive (t.node i).children) (mark i t))
          (mark-Signals w j i t)
          (each-Signals w j (cancel_in fuel) (cancel_in-Signals fuel w j)
            (live t.alive (t.node i).children) (mark i t)))
  ]

  cancels-Signals : (w j : ℕ) (cs : List ℕ) (t : Tree N) → Signals w j t (each cancel cs t)
  unfolding cancel
  cancels-Signals w j cs t = each-Signals w j cancel (λ c u. cancel_in-Signals u.next w j c u) cs t

  enabled : (w i : ℕ) (t : Tree N) → laws.waits w ((enable i w t).node i).notify ≡ true
  unfolding enable
  enabled w i t = ground (arith, laws.enabled w (t.node i).notify)

  -- Where `Notify` wakes each waker that is registered with it: a task whose first poll of
  -- `cancelled` ends, and whose token is cancelled later on or was before, returned at that poll or
  -- has been woken since, wherever the cancels of other threads fall: before its registration,
  -- between that and its second look, or later.
  pub cancelled_not_missed :
      (i w : ℕ) (before between later : List ℕ) (t : Tree N)
      → let (u, returned) = cancelled i w before between t in
        let v = each cancel later u in
        is_cancelled i v ≡ true → (returned ≡ true) ⊎ (count w u.woken < count w v.woken)
  unfolding cancelled is_cancelled
  cancelled_not_missed i w before between later t h =
      let t' = enable i w (each cancel before t) in
      ground (
        arith,
        enabled w i (each cancel before t),
        cancels-Signals w i between t',
        cancels-Signals w i later (each cancel between t'),
      )
