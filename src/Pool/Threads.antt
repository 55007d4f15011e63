-- ===== src/Pool/Threads.antt =====
-- src/pool.rs as its threads use it: every step is one section under the lock, and the steps of
-- different threads interleave as the list of events says. A spawn runs between two such sections.
use mlua_isle.Base.{
  ℕ, ◌+◌, ◌-◌, Bool, true, List, [], ◌∷◌, Option, none, some, ok, err, ltb, if◌then◌else◌,
  get_elem?, remove_at,
}
use mlua_isle.Error.{IsleError}
use mlua_isle.Pool.{
  IslePool, PooledIsle, Attempt, got, spawns, sleeps, nothing, fails, checkout, try_checkout,
  checkout_timeout, finish_spawn, drop, guard, kill, shutdown,
}

-- The three ways to check an isle out; a timeout carries the time that remains.
pub data Kind : Type 0 where
  blocking trying : Kind
  timed : ℕ → Kind

-- `spawning` counts the threads between the two sections of a spawn, `out` holds the guards, and
-- `fresh` is the number of the next isle that is spawned.
pub record World : Type 0 where
  pub pool : IslePool
  pub spawning : ℕ
  pub out : List PooledIsle
  pub fresh : ℕ

-- `calls`: a thread calls a checkout. `wakes`: a notified thread runs again, and goes round its
-- loop. `stirs`: a sleeping thread wakes with no notify (its time is up, or spuriously).
pub data Event : Type 0 where
  calls wakes : Kind → (ℕ → Bool) → Event
  stirs : Event
  spawned : Option IsleError → Event
  kills : ℕ → Event
  drops : ℕ → (ℕ → Bool) → Event
  shuts poisons : Event

unfoldable pub run_attempt : Kind → (ℕ → Bool) → IslePool → IslePool × Attempt
run_attempt blocking alive p = checkout alive p
run_attempt trying alive p = try_checkout alive p
run_attempt (timed remaining) alive p = checkout_timeout remaining alive p

unfoldable pub settle : World → IslePool × Attempt → World
unfolding guard
settle w (p, got i) = record w { pool = p; out = guard i ∷ w.out }
settle w (p, spawns) = record w { pool = p; spawning = w.spawning + 1 }
settle w (p, sleeps) = record w { pool = p }
settle w (p, nothing) = record w { pool = p }
settle w (p, fails e) = record w { pool = p }

unfoldable pub finish : World → Option IsleError → World
unfolding settle
finish w none = record (settle w (finish_spawn (ok w.fresh) w.pool)) {
  spawning = w.spawning - 1;
  fresh = w.fresh + 1;
}
finish w (some e) = record (settle w (finish_spawn (err e) w.pool)) { spawning = w.spawning - 1 }

unfoldable pub replace_guard : World → ℕ → Option PooledIsle → World
replace_guard w k none = w
replace_guard w k (some g) = record w { out = kill g ∷ remove_at w.out k }

unfoldable pub drop_guard : World → (ℕ → Bool) → ℕ → Option PooledIsle → World
drop_guard w alive k none = w
drop_guard w alive k (some g) = record w { pool = drop alive g w.pool; out = remove_at w.out k }

-- An event that cannot happen leaves the world as it is.
unfoldable pub step : World → Event → World
unfolding settle run_attempt finish replace_guard drop_guard
step w (calls kind alive) = settle w (run_attempt kind alive w.pool)
step w (wakes kind alive) =
    if ltb 0 w.pool.notified
    then settle w (run_attempt kind alive (record (w.pool) { notified = w.pool.notified - 1 }))
    else w
step w stirs =
    if ltb 0 w.pool.sleeping
    then record w {
      pool = record (w.pool) { sleeping = w.pool.sleeping - 1; notified = w.pool.notified + 1 };
    }
    else w
step w (spawned r) = if ltb 0 w.spawning then finish w r else w
step w (kills k) = replace_guard w k (get_elem? w.out k)
step w (drops k alive) = drop_guard w alive k (get_elem? w.out k)
step w shuts = record w { pool = shutdown w.pool }
step w poisons = record w { pool = record (w.pool) { poisoned = true } }

unfoldable pub run : World → List Event → World
run w [] = w
run w (e ∷ es) = run (step w e) es

unfoldable pub start : IslePool → World
start p = record { pool = p; spawning = 0; out = []; fresh = 0 }
