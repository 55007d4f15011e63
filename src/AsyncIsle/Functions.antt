-- ===== src/AsyncIsle/Functions.antt =====
-- src/async_isle.rs: function handles, which the isle that made them calls. An isle and a registry key
-- are named by their addresses.
use mlua_isle.Base.{
  ℕ, ◌≡◌, Bool, Option, none, some, Result, ok, err, ready, Bool-cases, if◌then◌else◌, ◌==◌, arith,
  inl, inr,
}
use mlua_isle.Tokio.{Notify}
use mlua_isle.Error.{IsleError}
use mlua_isle.Cancel.{new}
use mlua_isle.AsyncIsle.{AsyncIsle, AsyncTask, Job, submit, make_error_task, poll, new_task}

pub record IsleFunction : Type 0 where
  pub key : ℕ
  pub isle : ℕ

-- `AsyncIsle::function` on the isle `id`, where `out` is what its request gives.
unfoldable pub function : (id : ℕ) → Result ℕ IsleError → Result IsleFunction IsleError
function id (ok key) = ok (record { key = key; isle = id })
function id (err e) = err e

module _ {N : Notify} {T : Type 0} where
  unfoldable pub refuse_foreign :
      (id : ℕ) → IsleFunction → AsyncIsle N T → Option (AsyncIsle N T × AsyncTask)
  unfolding make_error_task
  refuse_foreign id func w =
      let (tree, n) = new w.tree in
      if func.isle == id
      then none
      else some (make_error_task IsleError.wrong_isle n (record w { tree = tree }))

  -- `spawn_call_fn`, a sync job, and `spawn_coroutine_call_fn`, a coroutine job.
  unfoldable pub spawn_call_fn :
      (id : ℕ) → Job → (room : Bool) → IsleFunction → AsyncIsle N T → AsyncIsle N T × AsyncTask
  unfolding refuse_foreign submit
  spawn_call_fn id j room func w = elim (refuse_foreign id func w) [
    | some refused ↦ refused
    | none ↦ submit j room w
  ]

  -- A function of another isle is refused: its task answers `wrong_isle` at once and nothing is sent. A
  -- function that the isle made itself is called by a request as any other is.
  pub call_fn_lem :
      (id : ℕ) (j : Job) (room : Bool) (func : IsleFunction) (w : AsyncIsle N T)
      → let (u, t) = spawn_call_fn id j room func w in
        let (v, s) = submit j room w in
        (u.queue ≡ (if func.isle == id then v.queue else w.queue))
        × ((poll t u).2
            ≡ (if func.isle == id then (poll s v).2 else ready (err IsleError.wrong_isle)))
  unfolding spawn_call_fn refuse_foreign make_error_task poll new_task
  call_fn_lem id j room func w = elim (Bool-cases (func.isle == id)) [
    | inl e ↦ ground (arith, e)
    | inr e ↦ ground (arith, e)
  ]
