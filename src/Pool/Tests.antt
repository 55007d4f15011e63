-- ===== src/Pool/Tests.antt =====
-- src/pool.rs: a pool of two isles in use, at concrete events.
use mlua_isle.Base.{false, ℕ, refl, Bool, true, List, [], ◌∷◌, none}
use mlua_isle.Pool.{PoolConfig, PoolStrategy, IslePool, new, warm, checkout}
use mlua_isle.Pool.Threads.{Event, blocking, calls, spawned, drops, shuts, run, start}
use mlua_isle.Pool.Capacity.{IsSound, run-IsSound}
use mlua_isle.Pool.Ownership.{Owned, run-Owned}
use mlua_isle.Pool.Checkout.{Answers, checkout-Answers}

abbrev all_alive : ℕ → Bool
all_alive i = true

abbrev config_of : PoolStrategy → PoolConfig
config_of s = record { max_size = 2; strategy = s }

abbrev pool_of : PoolStrategy → IslePool
pool_of s = record {
  inner = record { idle = []; active = 0; closed = false };
  poisoned = false;
  sleeping = 0;
  notified = 0;
  config = config_of s;
  shut = [];
  dropped = [];
}

-- Two isles are spawned, a third thread sleeps, and one isle is given back.
abbrev busy : List Event
busy =
    calls blocking all_alive
    ∷ spawned none
    ∷ calls blocking all_alive
    ∷ spawned none
    ∷ calls blocking all_alive
    ∷ drops 0 all_alive
    ∷ []

-- One isle is spawned and given back, and the pool is shut down.
abbrev shut_down : List Event
shut_down = calls blocking all_alive ∷ spawned none ∷ drops 0 all_alive ∷ shuts ∷ []

run-IsSound_example : IsSound (run (start (pool_of warm)) busy)
unfolding new
run-IsSound_example = run-IsSound (config_of warm) (pool_of warm) busy refl

run-Owned_example : Owned 1 (run (start (pool_of warm)) busy)
unfolding new
run-Owned_example = run-Owned (config_of warm) (pool_of warm) busy 1 refl

abbrev two_idle : IslePool
two_idle = record (pool_of warm) {
  inner = record { idle = 4 ∷ 3 ∷ []; active = 0; closed = false };
}

checkout-Answers_example : Answers all_alive two_idle (checkout all_alive two_idle).1
checkout-Answers_example = checkout-Answers all_alive two_idle
