-- ===== src/AsyncPool/Tests.antt =====
-- src/async_pool.rs: a pool of one slot, at concrete events. The notify keeps one permit.
use mlua_isle.Base.{ℕ, refl, Bool, true, false, List, [], ◌∷◌, none, arith}
use mlua_isle.Tokio.{Notify}
use mlua_isle.Pool.{PoolConfig, warm, take_alive_isle}
use mlua_isle.Pool.Threads.{blocking, trying}
use mlua_isle.AsyncPool.{
  AsyncIslePool, new, checkout, attempt, try_acquire, acquire, can_grow, with_inner,
}
use mlua_isle.AsyncPool.Tasks.{
  Event, passes, spawned, abandons, drops, run, start, step, settle, run_attempt,
}
use mlua_isle.AsyncPool.Capacity.{IsSound, run_counts}
use mlua_isle.AsyncPool.Leak.{IsRefused, leak_exhausts}

abbrev one_permit : Notify
one_permit = record {
  State = Bool;
  empty = false;
  enable = λ w p. p;
  notify_one = λ p. (true, []);
  notify_waiters = λ p. (p, []);
}

abbrev always : ℕ → Bool
always i = true

abbrev single : PoolConfig
single = record { max_size = 1; strategy = warm }

abbrev fresh_pool : AsyncIslePool one_permit
fresh_pool = record {
  inner = record { idle = []; active = 0; closed = false };
  poisoned = false;
  notify = false;
  config = single;
  shut = [];
  dropped = [];
}

-- A slot is spawned and given back.
abbrev reuse : List Event
reuse = passes blocking always ∷ spawned none ∷ drops 0 true always ∷ []

run_counts_example : IsSound (run (start fresh_pool) reuse)
unfolding new
run_counts_example = run_counts false single fresh_pool reuse refl

-- The first checkout is dropped while it awaits the spawn.
abbrev abandoned : List Event
abandoned = passes blocking always ∷ abandons ∷ []

leak_exhausts_example :
    IsRefused (run_attempt trying always (run (run (start fresh_pool) abandoned) reuse).pool).1
unfolding new run start step settle run_attempt checkout attempt try_acquire acquire can_grow
    with_inner take_alive_isle
leak_exhausts_example =
    leak_exhausts false single fresh_pool abandoned reuse trying always refl (omega arith)
