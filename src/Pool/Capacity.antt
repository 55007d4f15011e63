-- ===== src/Pool/Capacity.antt =====
-- src/pool.rs: how many isles there are, and the threads that sleep.
use mlua_isle.Base.{
  ℕ, suc, ◌+◌, ◌≡◌, ◌≤◌, ◌<◌, refl, Bool, true, false, List, [], ◌∷◌, Option, none, some, ok, err,
  length, get_elem?, remove_at, length-remove_at, Bool-cases, inl, inr, arith, ltb, ltb→lt, subst,
  ◌-◌,
}
use mlua_isle.Error.{IsleError}
use mlua_isle.Pool.{
  PoolConfig, IslePool, PooledIsle, Attempt, got, spawns, sleeps, nothing, fails, take_alive_isle,
  try_acquire, checkout, try_checkout, checkout_timeout, finish_spawn, drop, shutdown, new,
}
use mlua_isle.Pool.Threads.{
  World, Event, Kind, blocking, trying, timed, calls, wakes, stirs, spawned, kills, drops, shuts,
  poisons, run_attempt, settle, finish, replace_guard, drop_guard, step, run, start,
}

-- `n` isles are checked out or about to be. A thread that sleeps means that each place is taken, or
-- that a notified thread is on its way to it; `slack` is 1 while such a thread looks for a place.
pub record HoldsBut (slack : ℕ) (p : IslePool) (n : ℕ) : Type 0 where
  pub counted : p.active ≡ n
  pub bounded : p.active + length p.idle ≤ p.max_size
  pub emptied : p.closed ≡ true → p.idle ≡ []
  pub quiet : p.closed ≡ true → p.sleeping ≡ 0
  pub awaited : p.poisoned ≡ false → 0 < p.sleeping → p.max_size ≤ p.active + p.notified + slack

abbrev pub Holds : IslePool → ℕ → Type 0
Holds = HoldsBut 0

abbrev pub found : Option ℕ → ℕ
found none = 0
found (some i) = 1

-- What a search of the idle list leaves: nothing, or at least one isle less.
pub take_alive_isle-rest :
    (alive : ℕ → Bool) (is : List ℕ)
    → let t = take_alive_isle alive is in
      (t.isle ≡ none → t.rest ≡ []) × (found t.isle + length t.rest ≤ length is)
unfolding take_alive_isle
take_alive_isle-rest alive [] = (λ e. refl, omega arith)
take_alive_isle-rest alive (i ∷ is) = ground (arith, take_alive_isle-rest alive is)

abbrev added : Attempt → ℕ
added (got i) = 1
added spawns = 1
added _ = 0

-- A pass of a checkout, however it waits, keeps the counts, and adds one where it succeeds.
module _ (p : IslePool) (n : ℕ) (alive : ℕ → Bool) (h : HoldsBut 1 p n) where
  checkout-Holds : Holds (checkout alive p).0 (n + added (checkout alive p).1)
  unfolding checkout try_acquire
  checkout-Holds = ground (arith, take_alive_isle-rest alive p.idle)

  try_checkout-Holds : Holds (try_checkout alive p).0 (n + added (try_checkout alive p).1)
  unfolding try_checkout try_acquire
  try_checkout-Holds = ground (arith, take_alive_isle-rest alive p.idle)

  checkout_timeout-Holds :
      (r : ℕ) → Holds (checkout_timeout r alive p).0 (n + added (checkout_timeout r alive p).1)
  unfolding checkout_timeout try_acquire
  checkout_timeout-Holds r = ground (arith, take_alive_isle-rest alive p.idle)

-- A guard that is dropped frees its place.
drop-Holds :
    (p : IslePool) (n : ℕ) (alive : ℕ → Bool) (g : PooledIsle)
    → Holds p (suc n)
    → Holds (drop alive g p) n
unfolding drop
drop-Holds p n alive g h = ground arith

finish_spawn-Holds :
    (p : IslePool) (n : ℕ) (e : IsleError) → Holds p (suc n) → Holds (finish_spawn (err e) p).0 n
unfolding finish_spawn
finish_spawn-Holds p n e h = ground arith

shutdown-Holds : (p : IslePool) (n : ℕ) → Holds p n → Holds (shutdown p) n
unfolding shutdown
shutdown-Holds p n h = ground arith

run_attempt-Holds :
    (kind : Kind) (p : IslePool) (n : ℕ) (alive : ℕ → Bool)
    → HoldsBut 1 p n
    → Holds (run_attempt kind alive p).0 (n + added (run_attempt kind alive p).1)
unfolding run_attempt
run_attempt-Holds blocking p n alive h = checkout-Holds p n alive h
run_attempt-Holds trying p n alive h = try_checkout-Holds p n alive h
run_attempt-Holds (timed r) p n alive h = checkout_timeout-Holds p n alive h r

abbrev pub IsSound : World → Type 0
IsSound w = Holds w.pool (w.spawning + length w.out)

settle-IsSound :
    (w : World) (r : IslePool × Attempt)
    → Holds r.0 (w.spawning + length w.out + added r.1)
    → IsSound (settle w r)
unfolding settle
settle-IsSound w (p, got i) h = ground arith
settle-IsSound w (p, spawns) h = ground arith
settle-IsSound w (p, sleeps) h = ground arith
settle-IsSound w (p, nothing) h = ground arith
settle-IsSound w (p, fails e) h = ground arith

finish-IsSound :
    (w : World) (r : Option IsleError) → 0 < w.spawning → IsSound w → IsSound (finish w r)
unfolding finish settle finish_spawn
finish-IsSound w none b h = ground arith
finish-IsSound w (some e) b h =
    ground (arith, finish_spawn-Holds w.pool (w.spawning - 1 + length w.out) e)

replace_guard-IsSound :
    (w : World) (k : ℕ) (o : Option PooledIsle)
    → get_elem? w.out k ≡ o
    → IsSound w
    → IsSound (replace_guard w k o)
unfolding replace_guard
replace_guard-IsSound w k none e h = h
replace_guard-IsSound w k (some g) e h = ground (arith, length-remove_at w.out k g e)

drop_guard-IsSound :
    (w : World) (alive : ℕ → Bool) (k : ℕ) (o : Option PooledIsle)
    → get_elem? w.out k ≡ o
    → IsSound w
    → IsSound (drop_guard w alive k o)
unfolding drop_guard
drop_guard-IsSound w alive k none e h = h
drop_guard-IsSound w alive k (some g) e h =
    let shorter = length-remove_at w.out k g e in
    drop-Holds w.pool (w.spawning + length (remove_at w.out k)) alive g
      (subst (Holds w.pool) (omega arith) h)

-- Every step of every thread keeps the pool sound.
step-IsSound : (w : World) (e : Event) → IsSound w → IsSound (step w e)
unfolding step
step-IsSound w (calls kind alive) h =
    settle-IsSound w _ (run_attempt-Holds kind w.pool _ alive (ground arith))
step-IsSound w (wakes kind alive) h = elim (Bool-cases (ltb 0 w.pool.notified)) [
  | inl e ↦ rw e (
      settle-IsSound w _ (
        run_attempt-Holds kind (record (w.pool) { notified = w.pool.notified - 1 }) _ alive
          (ground arith)))
  | inr e ↦ rw e h
]
step-IsSound w stirs h = ground arith
step-IsSound w (spawned r) h = elim (Bool-cases (ltb 0 w.spawning)) [
  | inl e ↦ rw e (finish-IsSound w r (ltb→lt 0 _ e) h)
  | inr e ↦ rw e h
]
step-IsSound w (kills k) h = replace_guard-IsSound w k _ refl h
step-IsSound w (drops k alive) h = drop_guard-IsSound w alive k _ refl h
step-IsSound w shuts h = shutdown-Holds w.pool _ h
step-IsSound w poisons h = ground arith

run_keeps : (w : World) (es : List Event) → IsSound w → IsSound (run w es)
unfolding run
run_keeps w [] h = h
run_keeps w (e ∷ es) h = run_keeps (step w e) es (step-IsSound w e h)

start-IsSound : (config : PoolConfig) (p : IslePool) → new config ≡ ok p → IsSound (start p)
unfolding new start
start-IsSound config p e = ground arith

-- After any interleaving from a new pool: the isles in use or being started are counted exactly,
-- all isles together are at most `max_size`, a closed pool keeps no isle and no sleeper, and in a
-- pool that is not poisoned no thread sleeps while a place is free, unless a notified thread is on
-- its way for each such place.
pub run-IsSound :
    (config : PoolConfig) (p : IslePool) (es : List Event)
    → new config ≡ ok p
    → IsSound (run (start p) es)
run-IsSound config p es e = run_keeps (start p) es (start-IsSound config p e)
