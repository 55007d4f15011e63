-- ===== src/AsyncPool.antt =====
-- src/async_pool.rs: the pool of VMs for async tasks. A slot is its number; `alive` is what `is_alive`
-- answers at the moment of the call. The head of `idle` is the end of the vector, where `pop` takes.
pub mod Tasks
pub mod Capacity
pub mod Leak
mod Tests
use mlua_isle.Base.{
  ℕ, ◌+◌, ◌-◌, Bool, true, false, List, [], ◌∷◌, ◌++◌, Option, none, some, Result, ok, err, length,
  ltb, ◌==◌, if◌then◌else◌,
}
use mlua_isle.Error
use mlua_isle.Error.{IsleError, LuaErrorKind, failure}
use mlua_isle.Pool.{PoolConfig, cold, warm, Taken, take_alive_isle}
use mlua_isle.Tokio.{Notify}

pub record PoolInner : Type 0 where
  pub idle : List ℕ
  pub active : ℕ
  pub closed : Bool

-- `shut` lists the slots whose driver is shut down, `dropped` those that went without it.
pub record AsyncIslePool (N : Notify) : Type 0 where
  pub inner : PoolInner
  pub open inner use *
  pub poisoned : Bool
  pub notify : N.State
  pub config : PoolConfig
  pub open config use *
  pub shut : List ℕ
  pub dropped : List ℕ

-- `AcquireOutcome`.
pub data AcquireOutcome : Type 0 where
  acquired : ℕ → AcquireOutcome
  spawn_needed wait : AcquireOutcome

-- What one pass of a checkout leads to: a slot, a spawn to await, the notify to await, no slot
-- (`try_checkout`) or an error.
pub data Attempt : Type 0 where
  got : ℕ → Attempt
  spawns awaits nothing : Attempt
  fails : IsleError → Attempt

-- The guard of a checked-out slot.
pub record AsyncPooledIsle : Type 0 where
  pub slot : Option ℕ
  pub killed : Bool

unfoldable pub guard : ℕ → AsyncPooledIsle
guard i = record { slot = some i; killed = false }

unfoldable pub kill : AsyncPooledIsle → AsyncPooledIsle
kill g = record g { killed = true }

module _ {N : Notify} where
  unfoldable pub new : N.State → PoolConfig → Result (AsyncIslePool N) IsleError
  unfolding failure
  new notify config =
      if config.max_size == 0
      then err (IsleError.init (failure LuaErrorKind.external "max_size must be > 0"))
      else ok (record {
        inner = record { idle = []; active = 0; closed = false };
        poisoned = false;
        notify = notify;
        config = config;
        shut = [];
        dropped = [];
      })

  unfoldable pub with_inner : AsyncIslePool N → PoolInner → AsyncIslePool N
  with_inner p i = record p { inner = i }

  unfoldable pub notify_one : AsyncIslePool N → AsyncIslePool N
  notify_one p = record p { notify = (N.notify_one p.notify).0 }

  unfoldable pub can_grow : AsyncIslePool N → Bool
  can_grow p = ltb (p.active + length p.idle) p.max_size

  -- `take_alive_slot` and the rest of `try_acquire` after the test of `closed`.
  unfoldable pub acquire : (ℕ → Bool) → AsyncIslePool N → AsyncIslePool N × AcquireOutcome
  unfolding can_grow with_inner
  acquire alive p =
      let t = take_alive_isle alive p.idle in
      let q = record p {
        inner = record (p.inner) { idle = t.rest };
        dropped = t.dead ++ p.dropped;
      } in
      elim t.isle [
        | some i ↦ (with_inner q (record (q.inner) { active = q.active + 1 }), acquired i)
        | none ↦
            if can_grow q
            then (with_inner q (record (q.inner) { active = q.active + 1 }), spawn_needed)
            else (q, wait)
      ]

  unfoldable pub try_acquire :
      (ℕ → Bool) → AsyncIslePool N → AsyncIslePool N × Result AcquireOutcome IsleError
  unfolding acquire
  try_acquire alive p =
      if p.poisoned
      then (p, err (IsleError.pool_poisoned "poisoned lock: another task failed inside"))
      else if p.closed
      then (p, err IsleError.shutdown)
      else (let (q, a) = acquire alive p in (q, ok a))

  -- One pass of a checkout; `waiting` is what it does when it would have to wait.
  unfoldable pub attempt : (ℕ → Bool) → Attempt → AsyncIslePool N → AsyncIslePool N × Attempt
  unfolding try_acquire
  attempt alive waiting p =
      let (q, out) = try_acquire alive p in
      (
        q,
        elim out [
          | ok a ↦ elim a [ acquired i ↦ got i | spawn_needed ↦ spawns | wait ↦ waiting ]
          | err e ↦ fails e
        ],
      )

  unfoldable pub checkout : (ℕ → Bool) → AsyncIslePool N → AsyncIslePool N × Attempt
  unfolding attempt
  checkout alive p = attempt alive awaits p

  unfoldable pub try_checkout : (ℕ → Bool) → AsyncIslePool N → AsyncIslePool N × Attempt
  unfolding attempt
  try_checkout alive p = attempt alive nothing p

  -- `remaining` is the time left until the deadline when the task would wait.
  unfoldable pub checkout_timeout : ℕ → (ℕ → Bool) → AsyncIslePool N → AsyncIslePool N × Attempt
  unfolding attempt
  checkout_timeout remaining alive p =
      attempt alive (if remaining == 0 then fails (IsleError.pool_exhausted p.max_size) else awaits)
        p

  unfoldable pub dec_active : AsyncIslePool N → AsyncIslePool N
  unfolding notify_one with_inner
  dec_active p = notify_one (with_inner p (record (p.inner) { active = p.active - 1 }))

  -- What a checkout does with the answer of `spawn_slot`.
  unfoldable pub finish_spawn : Result ℕ IsleError → AsyncIslePool N → AsyncIslePool N × Attempt
  unfolding dec_active
  finish_spawn (ok i) p = (p, got i)
  finish_spawn (err e) p = (dec_active p, fails e)

  -- `runtime`: whether a tokio runtime is current.
  unfoldable pub spawn_driver_shutdown : Bool → ℕ → AsyncIslePool N → AsyncIslePool N
  spawn_driver_shutdown runtime i p =
      if runtime then record p { shut = i ∷ p.shut } else record p { dropped = i ∷ p.dropped }

  unfoldable pub return_slot_warm : Bool → (ℕ → Bool) → ℕ → AsyncIslePool N → AsyncIslePool N
  unfolding notify_one with_inner spawn_driver_shutdown
  return_slot_warm runtime alive i p =
      let q = with_inner p (record (p.inner) { active = p.active - 1 }) in
      if q.closed
      then notify_one (spawn_driver_shutdown runtime i q)
      else if alive i
      then notify_one (with_inner q (record (q.inner) { idle = i ∷ q.idle }))
      else notify_one (spawn_driver_shutdown runtime i q)

  unfoldable pub discard_slot : Bool → ℕ → AsyncIslePool N → AsyncIslePool N
  unfolding notify_one with_inner spawn_driver_shutdown
  discard_slot runtime i p =
      notify_one (
        spawn_driver_shutdown runtime i (with_inner p (record (p.inner) { active = p.active - 1 })))

  unfoldable pub shutdown : AsyncIslePool N → AsyncIslePool N
  shutdown p = record p {
    inner = record (p.inner) { closed = true; idle = [] };
    notify = (N.notify_waiters p.notify).0;
    shut = p.idle ++ p.shut;
  }

  unfoldable pub active : AsyncIslePool N → ℕ
  active p = if p.poisoned then 0 else p.active

  unfoldable pub idle : AsyncIslePool N → ℕ
  idle p = if p.poisoned then 0 else length p.idle

  unfoldable pub drop_slot : Bool → (ℕ → Bool) → Bool → ℕ → AsyncIslePool N → AsyncIslePool N
  unfolding discard_slot return_slot_warm
  drop_slot runtime alive killed i p =
      if killed then discard_slot runtime i p else elim p.strategy [
        | cold ↦ discard_slot runtime i p
        | warm ↦ return_slot_warm runtime alive i p
      ]

  unfoldable pub drop : Bool → (ℕ → Bool) → AsyncPooledIsle → AsyncIslePool N → AsyncIslePool N
  unfolding drop_slot
  drop runtime alive g p = elim g.slot [ none ↦ p | some i ↦ drop_slot runtime alive g.killed i p ]
