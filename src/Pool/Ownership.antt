-- ===== src/Pool/Ownership.antt =====
-- src/pool.rs: where each isle is.
use mlua_isle.Base.{
  ℕ, zero, suc, ◌+◌, ◌-◌, ◌≡◌, ◌≤◌, ◌<◌, refl, Bool, List, [], ◌∷◌, Option, none, some, ok,
  get_elem?, remove_at, count, count-append, count_opt, if◌then◌else◌, ◌==◌, arith, ltb,
}
use mlua_isle.Error.{IsleError}
use mlua_isle.Pool.{
  PoolConfig, IslePool, PooledIsle, Attempt, got, spawns, sleeps, nothing, fails, take_alive_isle,
  try_acquire, checkout, try_checkout, checkout_timeout, finish_spawn, drop, shutdown, new, kill,
}
use mlua_isle.Pool.Threads.{
  World, Event, Kind, blocking, trying, timed, calls, wakes, stirs, spawned, kills, drops, shuts,
  poisons, run_attempt, settle, finish, replace_guard, drop_guard, step, run, start,
}

-- How often the pool has isle `a`: idle, shut down or dropped.
abbrev pub kept : ℕ → IslePool → ℕ
kept a p = count a p.idle + count a p.shut + count a p.dropped

abbrev pub held : ℕ → List PooledIsle → ℕ
held a [] = 0
held a (g ∷ gs) = (if g.isle == a then 1 else 0) + held a gs

-- Isle `a` is in exactly one place if it was ever spawned, and nowhere if not.
abbrev pub Owned : ℕ → World → Type 0
Owned a w = kept a w.pool + held a w.out ≡ (if ltb a w.fresh then 1 else 0)

abbrev given : ℕ → Attempt → ℕ
given a (got i) = if i == a then 1 else 0
given a _ = 0

take_alive_isle-count :
    (a : ℕ) (alive : ℕ → Bool) (is : List ℕ)
    → let t = take_alive_isle alive is in
      count_opt a t.isle + count a t.rest + count a t.dead ≡ count a is
unfolding take_alive_isle
take_alive_isle-count a alive [] = omega arith
take_alive_isle-count a alive (i ∷ is) = ground (arith, take_alive_isle-count a alive is)

-- A pass of a checkout moves at most one isle, from the pool to its caller, and shuts none.
module _ (a : ℕ) (alive : ℕ → Bool) (p : IslePool) where
  checkout-kept :
      (kept a (checkout alive p).0 + given a (checkout alive p).1 ≡ kept a p)
      × ((checkout alive p).0.shut ≡ p.shut)
  unfolding checkout try_acquire
  checkout-kept = ground (
    arith,
    take_alive_isle-count a alive p.idle,
    count-append a (take_alive_isle alive p.idle).dead p.dropped,
  )

  try_checkout-kept :
      (kept a (try_checkout alive p).0 + given a (try_checkout alive p).1 ≡ kept a p)
      × ((try_checkout alive p).0.shut ≡ p.shut)
  unfolding try_checkout try_acquire
  try_checkout-kept = ground (
    arith,
    take_alive_isle-count a alive p.idle,
    count-append a (take_alive_isle alive p.idle).dead p.dropped,
  )

  checkout_timeout-kept :
      (r : ℕ)
      → (kept a (checkout_timeout r alive p).0 + given a (checkout_timeout r alive p).1 ≡ kept a p)
        × ((checkout_timeout r alive p).0.shut ≡ p.shut)
  unfolding checkout_timeout try_acquire
  checkout_timeout-kept r = ground (
    arith,
    take_alive_isle-count a alive p.idle,
    count-append a (take_alive_isle alive p.idle).dead p.dropped,
  )

run_attempt-kept :
    (a : ℕ) (kind : Kind) (alive : ℕ → Bool) (p : IslePool)
    → (kept a (run_attempt kind alive p).0 + given a (run_attempt kind alive p).1 ≡ kept a p)
      × ((run_attempt kind alive p).0.shut ≡ p.shut)
unfolding run_attempt
run_attempt-kept a blocking alive p = checkout-kept a alive p
run_attempt-kept a trying alive p = try_checkout-kept a alive p
run_attempt-kept a (timed r) alive p = checkout_timeout-kept a alive p r

-- A dropped guard's isle stays with the pool, whichever way it takes.
drop-kept :
    (a : ℕ) (alive : ℕ → Bool) (g : PooledIsle) (p : IslePool)
    → (kept a (drop alive g p) ≡ kept a p + (if g.isle == a then 1 else 0))
      × (count a p.shut ≤ count a (drop alive g p).shut)
unfolding drop
drop-kept a alive g p = ground arith

shutdown-kept :
    (a : ℕ) (p : IslePool)
    → (kept a (shutdown p) ≡ kept a p) × (count a p.shut ≤ count a (shutdown p).shut)
unfolding shutdown
shutdown-kept a p = ground (arith, count-append a p.idle p.shut)

held-remove_at :
    (a : ℕ) (gs : List PooledIsle) (k : ℕ) (g : PooledIsle)
    → get_elem? gs k ≡ some g
    → held a gs ≡ (if g.isle == a then 1 else 0) + held a (remove_at gs k)
held-remove_at a [] k g e = cc
held-remove_at a (x ∷ gs) zero g e = ground arith
held-remove_at a (x ∷ gs) (suc k) g e = ground (arith, held-remove_at a gs k g e)

-- What a step keeps: the places of each isle, and the isles that are shut down.
abbrev Keeps : ℕ → World → World → Type 0
Keeps a w v = (Owned a w → Owned a v) × (count a w.pool.shut ≤ count a v.pool.shut)

settle-Keeps :
    (a : ℕ) (w : World) (r : IslePool × Attempt)
    → kept a r.0 + given a r.1 ≡ kept a w.pool
    → r.0.shut ≡ w.pool.shut
    → Keeps a w (settle w r)
unfolding settle
settle-Keeps a w (p, got i) h s = ground arith
settle-Keeps a w (p, spawns) h s = ground arith
settle-Keeps a w (p, sleeps) h s = ground arith
settle-Keeps a w (p, nothing) h s = ground arith
settle-Keeps a w (p, fails e) h s = ground arith

finish-Keeps : (a : ℕ) (w : World) (r : Option IsleError) → Keeps a w (finish w r)
unfolding finish settle finish_spawn
finish-Keeps a w none = ground arith
finish-Keeps a w (some e) = ground arith

replace_guard-Keeps :
    (a : ℕ) (w : World) (k : ℕ) (o : Option PooledIsle)
    → get_elem? w.out k ≡ o
    → Keeps a w (replace_guard w k o)
unfolding replace_guard kill
replace_guard-Keeps a w k none e = ground arith
replace_guard-Keeps a w k (some g) e = ground (arith, held-remove_at a w.out k g e)

drop_guard-Keeps :
    (a : ℕ) (w : World) (alive : ℕ → Bool) (k : ℕ) (o : Option PooledIsle)
    → get_elem? w.out k ≡ o
    → Keeps a w (drop_guard w alive k o)
unfolding drop_guard
drop_guard-Keeps a w alive k none e = ground arith
drop_guard-Keeps a w alive k (some g) e =
    ground (arith, held-remove_at a w.out k g e, drop-kept a alive g w.pool)

step-Keeps : (a : ℕ) (w : World) (e : Event) → Keeps a w (step w e)
unfolding step
step-Keeps a w (calls kind alive) =
    let (h, s) = run_attempt-kept a kind alive w.pool in settle-Keeps a w _ h s
step-Keeps a w (wakes kind alive) =
    let q = record (w.pool) { notified = w.pool.notified - 1 } in
    let (h, s) = run_attempt-kept a kind alive q in
    ground (arith, settle-Keeps a w (run_attempt kind alive q) h s)
step-Keeps a w stirs = ground arith
step-Keeps a w (spawned r) = ground (arith, finish-Keeps a w r)
step-Keeps a w (kills k) = replace_guard-Keeps a w k _ refl
step-Keeps a w (drops k alive) = drop_guard-Keeps a w alive k _ refl
step-Keeps a w shuts = ground (arith, shutdown-kept a w.pool)
step-Keeps a w poisons = ground arith

run-Keeps : (a : ℕ) (w : World) (es : List Event) → Keeps a w (run w es)
unfolding run
run-Keeps a w [] = (λ o. o, omega arith)
run-Keeps a w (e ∷ es) =
    let (o, s) = step-Keeps a w e in
    let (o', s') = run-Keeps a (step w e) es in (λ h. o' (o h), omega arith)

start-Owned : (config : PoolConfig) (p : IslePool) (a : ℕ) → new config ≡ ok p → Owned a (start p)
unfolding new start
start-Owned config p a e = ground arith

-- After any interleaving from a new pool, an isle that was spawned is in exactly one place: idle,
-- behind one guard, shut down or dropped; one that was not spawned is in none.
pub run-Owned :
    (config : PoolConfig) (p : IslePool) (es : List Event) (a : ℕ)
    → new config ≡ ok p
    → Owned a (run (start p) es)
run-Owned config p es a e = (run-Keeps a (start p) es).0 (start-Owned config p a e)

-- An isle that was shut down in some interleaving from a new pool is never idle, handed out or
-- dropped without a shutdown, whatever happens later.
pub shut_final :
    (config : PoolConfig) (p : IslePool) (es later : List Event) (a : ℕ)
    → new config ≡ ok p
    → 0 < count a (run (start p) es).pool.shut
    → let v = run (run (start p) es) later in
      (count a v.pool.idle ≡ 0) × (held a v.out ≡ 0) × (count a v.pool.dropped ≡ 0)
shut_final config p es later a e s =
    let (o', s') = run-Keeps a (run (start p) es) later in
    ground (arith, o' (run-Owned config p es a e))
