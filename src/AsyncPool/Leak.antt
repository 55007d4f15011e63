-- ===== src/AsyncPool/Leak.antt =====
-- src/async_pool.rs: a checkout that is dropped while it awaits `spawn_slot`.
use mlua_isle.Base.{
  if◌then◌else◌, ◌==◌, ℕ, ◌+◌, ◌≡◌, ◌≤◌, ◌≢◌, refl, Bool, List, [], ◌∷◌, Option, none, some, ok,
  length, get_elem?, arith,
}
use mlua_isle.Error.{IsleError}
use mlua_isle.Tokio.{Notify}
use mlua_isle.Pool.{PoolConfig}
use mlua_isle.Pool.Threads.{Kind, blocking, trying, timed}
use mlua_isle.Pool.Capacity.{take_alive_isle-rest}
use mlua_isle.AsyncPool.{
  AsyncIslePool, AsyncPooledIsle, Attempt, got, spawns, awaits, nothing, fails, new, checkout,
  try_checkout, checkout_timeout, try_acquire, acquire, attempt, finish_spawn, drop, drop_slot,
  discard_slot, return_slot_warm, spawn_driver_shutdown, shutdown,
}
use mlua_isle.AsyncPool.Tasks.{
  World, Event, passes, spawned, abandons, kills, drops, shuts, poisons, run_attempt, settle,
  finish, replace_guard, drop_guard, step, run, start,
}
use mlua_isle.AsyncPool.Capacity.{run_counts, run_keeps}

-- No slot is found, and none may be spawned.
abbrev pub IsRefused : Attempt → Type 0
IsRefused a = ((i : ℕ) → a ≢ got i) × (a ≢ spawns)

module _ {N : Notify} where
  abbrev pub Keeps : World N → World N → Type 0
  Keeps w v = (w.lost ≤ v.lost) × (v.pool.max_size ≡ w.pool.max_size)

  attempt-max_size :
      (alive : ℕ → Bool) (waiting : Attempt) (p : AsyncIslePool N)
      → (attempt alive waiting p).0.max_size ≡ p.max_size
  unfolding attempt try_acquire acquire
  attempt-max_size alive waiting p = ground arith

  run_attempt-max_size :
      (kind : Kind) (alive : ℕ → Bool) (p : AsyncIslePool N)
      → (run_attempt kind alive p).0.max_size ≡ p.max_size
  unfolding run_attempt checkout try_checkout checkout_timeout
  run_attempt-max_size blocking alive p = attempt-max_size alive awaits p
  run_attempt-max_size trying alive p = attempt-max_size alive nothing p
  run_attempt-max_size (timed r) alive p =
      attempt-max_size alive
        (if r == 0 then fails (IsleError.pool_exhausted p.max_size) else awaits) p

  settle-Keeps :
      (w : World N) (r : AsyncIslePool N × Attempt)
      → r.0.max_size ≡ w.pool.max_size
      → Keeps w (settle w r)
  unfolding settle
  settle-Keeps w (p, got i) h = (omega arith, h)
  settle-Keeps w (p, spawns) h = (omega arith, h)
  settle-Keeps w (p, awaits) h = (omega arith, h)
  settle-Keeps w (p, nothing) h = (omega arith, h)
  settle-Keeps w (p, fails e) h = (omega arith, h)

  drop-max_size :
      (runtime : Bool) (alive : ℕ → Bool) (g : AsyncPooledIsle) (p : AsyncIslePool N)
      → (drop runtime alive g p).max_size ≡ p.max_size
  unfolding drop drop_slot discard_slot return_slot_warm spawn_driver_shutdown
  drop-max_size runtime alive g p = ground arith

  drop_guard-Keeps :
      (w : World N) (runtime : Bool) (alive : ℕ → Bool) (k : ℕ) (o : Option AsyncPooledIsle)
      → Keeps w (drop_guard w runtime alive k o)
  unfolding drop_guard
  drop_guard-Keeps w runtime alive k none = (omega arith, refl)
  drop_guard-Keeps w runtime alive k (some g) = (omega arith, drop-max_size runtime alive g w.pool)

  step-Keeps : (w : World N) (e : Event) → Keeps w (step w e)
  unfolding step finish finish_spawn replace_guard drop_guard settle shutdown
  step-Keeps w (passes kind alive) = settle-Keeps w _ (run_attempt-max_size kind alive w.pool)
  step-Keeps w (spawned none) = ground arith
  step-Keeps w (spawned (some e)) = ground arith
  step-Keeps w abandons = ground arith
  step-Keeps w (kills k) = ground arith
  step-Keeps w (drops k runtime alive) = drop_guard-Keeps w runtime alive k (get_elem? w.out k)
  step-Keeps w shuts = (omega arith, refl)
  step-Keeps w poisons = (omega arith, refl)

  run-Keeps : (w : World N) (es : List Event) → Keeps w (run w es)
  unfolding run
  run-Keeps w [] = (omega arith, refl)
  run-Keeps w (e ∷ es) = ground (arith, step-Keeps w e, run-Keeps (step w e) es)

  full-refuses :
      (alive : ℕ → Bool) (waiting : Attempt) (p : AsyncIslePool N)
      → IsRefused waiting
      → p.active + length p.idle ≤ p.max_size
      → p.max_size ≤ p.active
      → IsRefused (attempt alive waiting p).1
  unfolding attempt try_acquire acquire
  full-refuses alive waiting p r b l =
      let (t, s) = take_alive_isle-rest alive p.idle in
      (λ i. ground (arith, t, s, r.0 i), ground (arith, t, s, r.1))

  run_attempt-refuses :
      (kind : Kind) (alive : ℕ → Bool) (p : AsyncIslePool N)
      → p.active + length p.idle ≤ p.max_size
      → p.max_size ≤ p.active
      → IsRefused (run_attempt kind alive p).1
  unfolding run_attempt checkout try_checkout checkout_timeout
  run_attempt-refuses blocking alive p b l = full-refuses alive awaits p (λ i. cc, cc) b l
  run_attempt-refuses trying alive p b l = full-refuses alive nothing p (λ i. cc, cc) b l
  run_attempt-refuses (timed r) alive p b l =
      full-refuses alive _ p (λ i. ground arith, ground arith) b l

  -- After any interleaving from a new pool in which `max_size` checkouts or more were dropped while
  -- they awaited a spawn, and whatever happens later, no checkout of any kind gets a slot or may
  -- spawn one.
  pub leak_exhausts :
      (notify : N.State) (config : PoolConfig) (p : AsyncIslePool N) (es later : List Event)
      (kind : Kind) (alive : ℕ → Bool)
      → new notify config ≡ ok p
      → (run (start p) es).pool.max_size ≤ (run (start p) es).lost
      → IsRefused (run_attempt kind alive (run (run (start p) es) later).pool).1
  leak_exhausts notify config p es later kind alive e l =
      let u = run (start p) es in
      let v = run u later in
      let h = run_keeps u later (run_counts notify config p es e) in
      let (k, m) = run-Keeps u later in
      run_attempt-refuses kind alive v.pool h.bounded (omega (arith, h.counted))
