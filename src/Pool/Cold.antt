-- ===== src/Pool/Cold.antt =====
-- src/pool.rs: the idle list of a pool of strategy `Cold`.
use mlua_isle.Base.{ℕ, ◌-◌, ◌≡◌, ◌≢◌, refl, Bool, List, [], ◌∷◌, Option, none, some, ok, arith}
use mlua_isle.Error.{IsleError}
use mlua_isle.Pool.{
  PoolConfig, IslePool, PooledIsle, Attempt, got, spawns, sleeps, nothing, fails, take_alive_isle,
  try_acquire, checkout, try_checkout, checkout_timeout, finish_spawn, drop, shutdown, new, cold,
}
use mlua_isle.Pool.Threads.{
  World, Event, Kind, blocking, trying, timed, calls, wakes, stirs, spawned, kills, drops, shuts,
  poisons, run_attempt, settle, finish, replace_guard, drop_guard, step, run, start,
}

cold_search : (alive : ℕ → Bool) (is : List ℕ) → is ≡ [] → (take_alive_isle alive is).rest ≡ []
unfolding take_alive_isle
cold_search alive [] e = refl
cold_search alive (i ∷ is) e = cc

-- A pool that starts cold never has an idle isle, so that each checkout is served by a new one.
abbrev pub IsCold : World → Type 0
IsCold w = (w.pool.strategy ≡ cold) × (w.pool.idle ≡ [])

run_attempt-strategy :
    (kind : Kind) (alive : ℕ → Bool) (p : IslePool)
    → ((run_attempt kind alive p).0.strategy ≡ p.strategy)
      × (p.idle ≡ [] → (run_attempt kind alive p).0.idle ≡ [])
unfolding run_attempt checkout try_checkout checkout_timeout try_acquire take_alive_isle
run_attempt-strategy blocking alive p = ground (arith, cold_search alive p.idle)
run_attempt-strategy trying alive p = ground (arith, cold_search alive p.idle)
run_attempt-strategy (timed r) alive p = ground (arith, cold_search alive p.idle)

settle-pool : (w : World) (r : IslePool × Attempt) → (settle w r).pool ≡ r.0
unfolding settle
settle-pool w (p, got i) = refl
settle-pool w (p, spawns) = refl
settle-pool w (p, sleeps) = refl
settle-pool w (p, nothing) = refl
settle-pool w (p, fails e) = refl

drop-IsCold :
    (alive : ℕ → Bool) (g : PooledIsle) (p : IslePool)
    → p.strategy ≡ cold
    → p.idle ≡ []
    → ((drop alive g p).strategy ≡ cold) × ((drop alive g p).idle ≡ [])
unfolding drop
drop-IsCold alive g p e f = ground arith

finish-IsCold : (w : World) (r : Option IsleError) → IsCold w → IsCold (finish w r)
unfolding finish settle finish_spawn
finish-IsCold w none h = ground arith
finish-IsCold w (some e) h = ground arith

replace_guard-IsCold :
    (w : World) (k : ℕ) (o : Option PooledIsle) → IsCold w → IsCold (replace_guard w k o)
unfolding replace_guard
replace_guard-IsCold w k none h = h
replace_guard-IsCold w k (some g) h = h

drop_guard-IsCold :
    (w : World) (alive : ℕ → Bool) (k : ℕ) (o : Option PooledIsle)
    → IsCold w
    → IsCold (drop_guard w alive k o)
unfolding drop_guard
drop_guard-IsCold w alive k none h = h
drop_guard-IsCold w alive k (some g) h = drop-IsCold alive g w.pool h.0 h.1

attempted-IsCold :
    (w : World) (p : IslePool) (kind : Kind) (alive : ℕ → Bool)
    → p.strategy ≡ cold
    → p.idle ≡ []
    → IsCold (settle w (run_attempt kind alive p))
attempted-IsCold w p kind alive e f =
    ground (arith, settle-pool w (run_attempt kind alive p), run_attempt-strategy kind alive p)

step-IsCold : (w : World) (e : Event) → IsCold w → IsCold (step w e)
unfolding step shutdown
step-IsCold w (calls kind alive) h = attempted-IsCold w w.pool kind alive h.0 h.1
step-IsCold w (wakes kind alive) h =
    let q = record (w.pool) { notified = w.pool.notified - 1 } in
    ground (arith, attempted-IsCold w q kind alive h.0 h.1)
step-IsCold w stirs h = ground arith
step-IsCold w (spawned r) h = ground (arith, finish-IsCold w r h)
step-IsCold w (kills k) h = replace_guard-IsCold w k _ h
step-IsCold w (drops k alive) h = drop_guard-IsCold w alive k _ h
step-IsCold w shuts h = ground arith
step-IsCold w poisons h = h

run-IsCold : (w : World) (es : List Event) → IsCold w → IsCold (run w es)
unfolding run
run-IsCold w [] h = h
run-IsCold w (e ∷ es) h = run-IsCold (step w e) es (step-IsCold w e h)

none_found : (alive : ℕ → Bool) (is : List ℕ) → is ≡ [] → (take_alive_isle alive is).isle ≡ none
unfolding take_alive_isle
none_found alive [] e = refl
none_found alive (i ∷ is) e = cc

cold_misses :
    (kind : Kind) (alive : ℕ → Bool) (p : IslePool) (i : ℕ)
    → p.idle ≡ []
    → (run_attempt kind alive p).1 ≢ got i
unfolding run_attempt checkout try_checkout checkout_timeout try_acquire
cold_misses blocking alive p i e = ground (arith, none_found alive p.idle)
cold_misses trying alive p i e = ground (arith, none_found alive p.idle)
cold_misses (timed r) alive p i e = ground (arith, none_found alive p.idle)

-- After any interleaving from a new pool of strategy `cold`, no checkout is served from the idle
-- list.
pub cold_never_reuses :
    (config : PoolConfig) (p : IslePool) (es : List Event) (kind : Kind) (alive : ℕ → Bool) (i : ℕ)
    → config.strategy ≡ cold
    → new config ≡ ok p
    → (run_attempt kind alive (run (start p) es).pool).1 ≢ got i
unfolding new start
cold_never_reuses config p es kind alive i c e =
    cold_misses kind alive _ i (run-IsCold (start p) es (ground arith)).1
