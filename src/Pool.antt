-- ===== src/Pool.antt =====
-- src/pool.rs: the pool of thread-isolated VMs. An isle is its number; `alive` is what `is_alive`
-- answers at the moment of the call. The head of `idle` is the end of the vector, where `pop` takes.
pub mod Threads
pub mod Capacity
pub mod Ownership
pub mod Checkout
pub mod Cold
mod Tests
use mlua_isle.Base.{
  ℕ, suc, ◌+◌, ◌-◌, ◌≡◌, Bool, true, false, List, [], ◌∷◌, ◌++◌, Option, none, some, Result, ok,
  err, length, ltb, ◌==◌, if◌then◌else◌, String,
}
use mlua_isle.Error
use mlua_isle.Error.{IsleError, LuaErrorKind, failure}

pub data PoolStrategy : Type 0 where
  cold warm : PoolStrategy

pub record PoolConfig : Type 0 where
  pub max_size : ℕ
  pub strategy : PoolStrategy

pub record PoolInner : Type 0 where
  pub idle : List ℕ
  pub active : ℕ
  pub closed : Bool

-- `sleeping` and `notified` are the condition variable: the threads in `wait` that no notify has
-- reached, and those that one has reached and that have not run again yet. `shut` and `dropped`
-- list the isles that `shutdown` was called on and those that were dropped without it.
pub record IslePool : Type 0 where
  pub inner : PoolInner
  pub open inner use *
  pub poisoned : Bool
  pub sleeping : ℕ
  pub notified : ℕ
  pub config : PoolConfig
  pub open config use *
  pub shut : List ℕ
  pub dropped : List ℕ

unfoldable pub new : PoolConfig → Result IslePool IsleError
unfolding failure
new config =
    if config.max_size == 0
    then err (IsleError.init (failure LuaErrorKind.external "max_size must be > 0"))
    else ok (record {
      inner = record { idle = []; active = 0; closed = false };
      poisoned = false;
      sleeping = 0;
      notified = 0;
      config = config;
      shut = [];
      dropped = [];
    })

-- `condvar.notify_one`: one sleeping thread, if there is one, is on its way.
unfoldable pub notify_one : IslePool → IslePool
notify_one p =
    if ltb 0 p.sleeping
    then record p { sleeping = p.sleeping - 1; notified = p.notified + 1 }
    else p

unfoldable pub notify_all : IslePool → IslePool
notify_all p = record p { sleeping = 0; notified = p.notified + p.sleeping }

-- The idle isles left, those found dead (newest last), and the live one.
pub record Taken : Type 0 where
  pub isle : Option ℕ
  pub rest : List ℕ
  pub dead : List ℕ

unfoldable pub take_alive_isle : (ℕ → Bool) → List ℕ → Taken
take_alive_isle alive [] = record { isle = none; rest = []; dead = [] }
take_alive_isle alive (i ∷ is) =
    let later = take_alive_isle alive is in
    if alive i
    then record { isle = some i; rest = is; dead = [] }
    else record later { dead = i ∷ later.dead }

unfoldable pub can_grow : IslePool → Bool
can_grow p = ltb (p.active + length p.idle) p.max_size

-- `Acquired`, with the spawn that follows the release of the lock still to come.
pub data Acquired : Type 0 where
  isle : ℕ → Acquired
  spawning need_wait : Acquired

unfoldable pub with_inner : IslePool → PoolInner → IslePool
with_inner p i = record p { inner = i }

-- The part of `try_acquire` under the lock.
unfoldable pub try_acquire : (ℕ → Bool) → IslePool → IslePool × Acquired
unfolding can_grow with_inner
try_acquire alive p =
    let t = take_alive_isle alive p.idle in
    let q = record p {
      inner = record (p.inner) { idle = t.rest };
      dropped = t.dead ++ p.dropped;
    } in
    elim t.isle [
      | some i ↦ (with_inner q (record (q.inner) { active = q.active + 1 }), isle i)
      | none ↦
          if can_grow q
          then (with_inner q (record (q.inner) { active = q.active + 1 }), spawning)
          else (q, need_wait)
    ]

-- What one pass of a checkout leads to: an isle, a spawn outside the lock, a wait on the condition
-- variable, no isle (`try_checkout`), or an error.
pub data Attempt : Type 0 where
  got : ℕ → Attempt
  spawns sleeps nothing : Attempt
  fails : IsleError → Attempt

-- `lock_inner`, the test of `closed` and `try_acquire`, which the three checkouts share; they
-- differ in what they do when they would have to wait.
unfoldable pub attempt :
    (ℕ → Bool) → (IslePool → IslePool × Attempt) → IslePool → IslePool × Attempt
attempt alive wait p =
    if p.poisoned
    then (p, fails (IsleError.pool_poisoned "poisoned lock: another task failed inside"))
    else if p.closed
    then (p, fails IsleError.shutdown)
    else (let (q, a) = try_acquire alive p in
        elim a [ isle i ↦ (q, got i) | spawning ↦ (q, spawns) | need_wait ↦ wait q ])

unfoldable pub sleep : IslePool → IslePool × Attempt
sleep p = (record p { sleeping = p.sleeping + 1 }, sleeps)

unfoldable pub checkout : (ℕ → Bool) → IslePool → IslePool × Attempt
unfolding attempt sleep
checkout alive p = attempt alive sleep p

unfoldable pub try_checkout : (ℕ → Bool) → IslePool → IslePool × Attempt
unfolding attempt
try_checkout alive p = attempt alive (λ q. (q, nothing)) p

-- `remaining` is the time left until the deadline when the thread would wait.
unfoldable pub checkout_timeout : ℕ → (ℕ → Bool) → IslePool → IslePool × Attempt
unfolding attempt sleep
checkout_timeout remaining alive p =
    attempt alive
      (λ q. if remaining == 0 then (q, fails (IsleError.pool_exhausted q.max_size)) else sleep q) p

unfoldable pub dec_active : IslePool → IslePool
unfolding notify_one with_inner
dec_active p = notify_one (with_inner p (record (p.inner) { active = p.active - 1 }))

-- The rest of `try_acquire` after the lock was released: `spawned` is what `spawn_isle` gave.
unfoldable pub finish_spawn : Result ℕ IsleError → IslePool → IslePool × Attempt
unfolding dec_active
finish_spawn (ok i) p = (p, got i)
finish_spawn (err e) p = (dec_active p, fails e)

unfoldable pub return_isle : (ℕ → Bool) → ℕ → IslePool → IslePool
unfolding notify_one with_inner
return_isle alive i p =
    let q = with_inner p (record (p.inner) { active = p.active - 1 }) in
    notify_one (
      if q.closed then record q { shut = i ∷ q.shut } else elim q.strategy [
        | cold ↦ record q { shut = i ∷ q.shut }
        | warm ↦
            if alive i
            then with_inner q (record (q.inner) { idle = i ∷ q.idle })
            else record q { dropped = i ∷ q.dropped }
      ])

unfoldable pub discard_isle : ℕ → IslePool → IslePool
unfolding dec_active
discard_isle i p = dec_active (record p { shut = i ∷ p.shut })

unfoldable pub shutdown : IslePool → IslePool
unfolding notify_all with_inner
shutdown p =
    notify_all
      (record p { inner = record (p.inner) { closed = true; idle = [] }; shut = p.idle ++ p.shut })

unfoldable pub active : IslePool → ℕ
active p = if p.poisoned then 0 else p.active

unfoldable pub idle : IslePool → ℕ
idle p = if p.poisoned then 0 else length p.idle

-- The guard of a checked-out isle.
pub record PooledIsle : Type 0 where
  pub isle : ℕ
  pub killed : Bool

unfoldable pub guard : ℕ → PooledIsle
guard i = record { isle = i; killed = false }

unfoldable pub kill : PooledIsle → PooledIsle
kill g = record g { killed = true }

unfoldable pub drop : (ℕ → Bool) → PooledIsle → IslePool → IslePool
unfolding return_isle discard_isle
drop alive g p = if g.killed then discard_isle g.isle p else return_isle alive g.isle p
