-- ===== src/AsyncPool/Tasks.antt =====
-- src/async_pool.rs as its tasks use it: each step runs to the next await, and the steps of
-- different tasks interleave as the list of events says.
use mlua_isle.Base.{
  ℕ, ◌+◌, ◌-◌, Bool, true, List, [], ◌∷◌, Option, none, some, ok, err, ltb, if◌then◌else◌,
  get_elem?, remove_at,
}
use mlua_isle.Error.{IsleError}
use mlua_isle.Tokio.{Notify}
use mlua_isle.Pool.Threads.{Kind, blocking, trying, timed}
use mlua_isle.AsyncPool.{
  AsyncIslePool, AsyncPooledIsle, Attempt, got, spawns, awaits, nothing, fails, checkout,
  try_checkout, checkout_timeout, finish_spawn, drop, guard, kill, shutdown,
}

-- `spawning` counts the checkouts that await `spawn_slot`, `lost` those that were dropped while they
-- did. `fresh` is the number of the next slot.
pub record World (N : Notify) : Type 0 where
  pub pool : AsyncIslePool N
  pub spawning : ℕ
  pub lost : ℕ
  pub out : List AsyncPooledIsle
  pub fresh : ℕ

-- `passes`: a checkout makes a pass of its loop, its first or one after its await. `abandons`: a
-- future that awaits `spawn_slot` is dropped.
pub data Event : Type 0 where
  passes : Kind → (ℕ → Bool) → Event
  spawned : Option IsleError → Event
  abandons : Event
  kills : ℕ → Event
  drops : ℕ → Bool → (ℕ → Bool) → Event
  shuts poisons : Event

module _ {N : Notify} where
  unfoldable pub run_attempt : Kind → (ℕ → Bool) → AsyncIslePool N → AsyncIslePool N × Attempt
  run_attempt blocking alive p = checkout alive p
  run_attempt trying alive p = try_checkout alive p
  run_attempt (timed remaining) alive p = checkout_timeout remaining alive p

  unfoldable pub settle : World N → AsyncIslePool N × Attempt → World N
  unfolding guard
  settle w (p, got i) = record w { pool = p; out = guard i ∷ w.out }
  settle w (p, spawns) = record w { pool = p; spawning = w.spawning + 1 }
  settle w (p, awaits) = record w { pool = p }
  settle w (p, nothing) = record w { pool = p }
  settle w (p, fails e) = record w { pool = p }

  unfoldable pub finish : World N → Option IsleError → World N
  unfolding settle
  finish w none = record (settle w (finish_spawn (ok w.fresh) w.pool)) {
    spawning = w.spawning - 1;
    fresh = w.fresh + 1;
  }
  finish w (some e) = record (settle w (finish_spawn (err e) w.pool)) { spawning = w.spawning - 1 }

  unfoldable pub replace_guard : World N → ℕ → Option AsyncPooledIsle → World N
  replace_guard w k none = w
  replace_guard w k (some g) = record w { out = kill g ∷ remove_at w.out k }

  unfoldable pub drop_guard : World N → Bool → (ℕ → Bool) → ℕ → Option AsyncPooledIsle → World N
  drop_guard w runtime alive k none = w
  drop_guard w runtime alive k (some g) = record w {
    pool = drop runtime alive g w.pool;
    out = remove_at w.out k;
  }

  -- An event that cannot happen leaves the world as it is.
  unfoldable pub step : World N → Event → World N
  unfolding settle run_attempt finish replace_guard drop_guard
  step w (passes kind alive) = settle w (run_attempt kind alive w.pool)
  step w (spawned r) = if ltb 0 w.spawning then finish w r else w
  step w abandons =
      if ltb 0 w.spawning then record w { spawning = w.spawning - 1; lost = w.lost + 1 } else w
  step w (kills k) = replace_guard w k (get_elem? w.out k)
  step w (drops k runtime alive) = drop_guard w runtime alive k (get_elem? w.out k)
  step w shuts = record w { pool = shutdown w.pool }
  step w poisons = record w { pool = record (w.pool) { poisoned = true } }

  unfoldable pub run : World N → List Event → World N
  run w [] = w
  run w (e ∷ es) = run (step w e) es

  unfoldable pub start : AsyncIslePool N → World N
  start p = record { pool = p; spawning = 0; lost = 0; out = []; fresh = 0 }
