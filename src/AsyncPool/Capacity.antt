-- ===== src/AsyncPool/Capacity.antt =====
-- src/async_pool.rs: how many slots there are.
use mlua_isle.Base.{
  ℕ, zero, suc, ◌+◌, ◌≡◌, ◌≤◌, ◌<◌, refl, Bool, true, List, [], ◌∷◌, Option, none, some, ok, length,
  get_elem?, remove_at, Bool-cases, Option-cases, inl, inr, arith, ltb, ltb→lt, is_some,
  if◌then◌else◌, subst,
}
use mlua_isle.Error.{IsleError}
use mlua_isle.Tokio.{Notify}
use mlua_isle.Pool.{PoolConfig}
use mlua_isle.Pool.Capacity.{take_alive_isle-rest}
use mlua_isle.Pool.Threads.{Kind, blocking, trying, timed}
use mlua_isle.AsyncPool.{
  AsyncIslePool, AsyncPooledIsle, Attempt, got, spawns, awaits, nothing, fails, new, checkout,
  try_checkout, checkout_timeout, try_acquire, acquire, attempt, finish_spawn, drop, shutdown,
  guard, kill,
}
use mlua_isle.AsyncPool.Tasks.{
  World, Event, passes, spawned, abandons, kills, drops, shuts, poisons, run_attempt, settle,
  finish, replace_guard, drop_guard, step, run, start,
}

-- The guards that hold a slot.
abbrev pub held : List AsyncPooledIsle → ℕ
held [] = 0
held (g ∷ gs) = (if is_some g.slot then 1 else 0) + held gs

held-remove_at :
    (gs : List AsyncPooledIsle) (k : ℕ) (g : AsyncPooledIsle)
    → get_elem? gs k ≡ some g
    → held gs ≡ (if is_some g.slot then 1 else 0) + held (remove_at gs k)
held-remove_at [] k g e = cc
held-remove_at (x ∷ xs) zero g e = ground arith
held-remove_at (x ∷ xs) (suc k) g e = omega (arith, held-remove_at xs k g e)

abbrev pub added : Attempt → ℕ
added (got i) = 1
added spawns = 1
added awaits = 0
added nothing = 0
added (fails e) = 0

module _ {N : Notify} where
  -- `n` slots are checked out, being spawned or lost.
  pub record Holds (p : AsyncIslePool N) (n : ℕ) : Type 0 where
    pub counted : p.active ≡ n
    pub bounded : p.active + length p.idle ≤ p.max_size
    pub emptied : p.closed ≡ true → p.idle ≡ []

  attempt-Holds :
      (alive : ℕ → Bool) (waiting : Attempt) (p : AsyncIslePool N) (n : ℕ)
      → added waiting ≡ 0
      → Holds p n
      → Holds (attempt alive waiting p).0 (n + added (attempt alive waiting p).1)
  unfolding attempt try_acquire acquire
  attempt-Holds alive waiting p n z h =
      let (t, l) = take_alive_isle-rest alive p.idle in
      record {
        counted = ground (arith, h.counted, t);
        bounded = ground (arith, h.bounded, t, l);
        emptied = ground (arith, h.emptied, t);
      }

  run_attempt-Holds :
      (kind : Kind) (alive : ℕ → Bool) (p : AsyncIslePool N) (n : ℕ)
      → Holds p n
      → Holds (run_attempt kind alive p).0 (n + added (run_attempt kind alive p).1)
  unfolding run_attempt checkout try_checkout checkout_timeout
  run_attempt-Holds blocking alive p n h = attempt-Holds alive awaits p n refl h
  run_attempt-Holds trying alive p n h = attempt-Holds alive nothing p n refl h
  run_attempt-Holds (timed r) alive p n h = attempt-Holds alive _ p n (ground arith) h

  abbrev pub IsSound : World N → Type 0
  IsSound w = Holds w.pool (w.spawning + w.lost + held w.out)

  settle-IsSound :
      (w : World N) (r : AsyncIslePool N × Attempt)
      → Holds r.0 (w.spawning + w.lost + held w.out + added r.1)
      → IsSound (settle w r)
  unfolding settle guard
  settle-IsSound w (p, got i) h = subst (Holds p) (omega arith) h
  settle-IsSound w (p, spawns) h = subst (Holds p) (omega arith) h
  settle-IsSound w (p, awaits) h = subst (Holds p) (omega arith) h
  settle-IsSound w (p, nothing) h = subst (Holds p) (omega arith) h
  settle-IsSound w (p, fails e) h = subst (Holds p) (omega arith) h

  finish-IsSound :
      (w : World N) (r : Option IsleError) → 0 < w.spawning → IsSound w → IsSound (finish w r)
  unfolding finish settle finish_spawn guard
  finish-IsSound w none l h = subst (Holds w.pool) (omega arith) h
  finish-IsSound w (some e) l h = record {
    counted = omega (arith, h.counted);
    bounded = omega (arith, h.bounded);
    emptied = h.emptied;
  }

  drop-Holds :
      (p : AsyncIslePool N) (n : ℕ) (runtime : Bool) (alive : ℕ → Bool) (g : AsyncPooledIsle)
      → Holds p ((if is_some g.slot then 1 else 0) + n)
      → Holds (drop runtime alive g p) n
  unfolding drop
  drop-Holds p n runtime alive g h = elim (Option-cases g.slot) [
    | inl e ↦
        rw (e, drop)
          (record { counted = ground (arith, h.counted); bounded = h.bounded; emptied = h.emptied })
    | inr (i, e) ↦ record {
      counted = ground (arith, h.counted);
      bounded = ground (arith, h.bounded, h.counted);
      emptied = ground (arith, h.emptied);
    }
  ]

  replace_guard-IsSound :
      (w : World N) (k : ℕ) (o : Option AsyncPooledIsle)
      → get_elem? w.out k ≡ o
      → IsSound w
      → IsSound (replace_guard w k o)
  unfolding replace_guard kill
  replace_guard-IsSound w k none e h = h
  replace_guard-IsSound w k (some g) e h =
      subst (Holds w.pool) (omega (arith, held-remove_at w.out k g e)) h

  drop_guard-IsSound :
      (w : World N) (runtime : Bool) (alive : ℕ → Bool) (k : ℕ) (o : Option AsyncPooledIsle)
      → get_elem? w.out k ≡ o
      → IsSound w
      → IsSound (drop_guard w runtime alive k o)
  unfolding drop_guard
  drop_guard-IsSound w runtime alive k none e h = h
  drop_guard-IsSound w runtime alive k (some g) e h =
      drop-Holds w.pool (w.spawning + w.lost + held (remove_at w.out k)) runtime alive g
        (subst (Holds w.pool) (omega (arith, held-remove_at w.out k g e)) h)

  step-IsSound : (w : World N) (e : Event) → IsSound w → IsSound (step w e)
  unfolding step shutdown
  step-IsSound w (passes kind alive) h =
      settle-IsSound w _ (run_attempt-Holds kind alive w.pool _ h)
  step-IsSound w (spawned r) h = elim (Bool-cases (ltb 0 w.spawning)) [
    | inl e ↦ rw e (finish-IsSound w r (ltb→lt 0 _ e) h)
    | inr e ↦ rw e h
  ]
  step-IsSound w abandons h = elim (Bool-cases (ltb 0 w.spawning)) [
    | inl e ↦ rw e (subst (Holds w.pool) (omega (arith, ltb→lt 0 _ e)) h)
    | inr e ↦ rw e h
  ]
  step-IsSound w (kills k) h = replace_guard-IsSound w k _ refl h
  step-IsSound w (drops k runtime alive) h = drop_guard-IsSound w runtime alive k _ refl h
  step-IsSound w shuts h = record {
    counted = h.counted;
    bounded = omega (arith, h.bounded);
    emptied = λ e. refl;
  }
  step-IsSound w poisons h = record {
    counted = h.counted;
    bounded = h.bounded;
    emptied = h.emptied;
  }

  pub run_keeps : (w : World N) (es : List Event) → IsSound w → IsSound (run w es)
  unfolding run
  run_keeps w [] h = h
  run_keeps w (e ∷ es) h = run_keeps (step w e) es (step-IsSound w e h)

  -- After any interleaving from a new pool: `active` counts the slots checked out, those that are
  -- being spawned and the checkouts dropped while they awaited a spawn; active and idle slots
  -- together are at most `max_size`; and a closed pool keeps no slot.
  pub run_counts :
      (notify : N.State) (config : PoolConfig) (p : AsyncIslePool N) (es : List Event)
      → new notify config ≡ ok p
      → IsSound (run (start p) es)
  unfolding new start
  run_counts notify config p es e = run_keeps (start p) es (ground arith)
