-- ===== src/Chan/Trace.antt =====
-- src/chan.rs: runs of the operations on one channel, by any tasks in any order, with the values
-- that went in and came out.
use mlua_isle.Base.{
  ℕ, Bool, true, false, List, [], ◌∷◌, ◌++◌, Option, none, some, Result, ok, err, Poll, ready,
  pending,
}
use mlua_isle.Tokio.{Env}
use mlua_isle.Chan.{Chan}
use mlua_isle.Chan.Ops.{
  TryRecv, value, closed, empty, poll_recv, try_recv, poll_send, try_send, close, unrecv,
  push_newest,
}

-- One poll of a receive or a send by a task, or a call that does not wait.
pub data Op (E : Env) : Type 0 where
  recv : ℕ → Op E
  try_recv_now : Op E
  send : ℕ → E.Value → Op E
  try_send_now : E.Value → Op E
  untake : E.Value → Op E
  tick : E.Value → Op E
  shut : Op E

abbrev pub received {ℓ κ} : {V : Type ℓ} {F : Type κ} → Poll (Result (Option V) F) → List V
received (ready (ok (some v))) = v ∷ []
received (ready (ok none)) = []
received (ready (err e)) = []
received pending = []

abbrev pub received_now : {V F : Type 0} → Result (TryRecv V) F → List V
received_now (ok (value v)) = v ∷ []
received_now (ok closed) = []
received_now (ok empty) = []
received_now (err e) = []

abbrev pub accepted {ℓ κ μ} :
    {V : Type ℓ} {A : Type κ} {F : Type μ} → V → Poll (Result A F) → List V
accepted v (ready (ok u)) = v ∷ []
accepted v (ready (err e)) = []
accepted v pending = []

abbrev pub accepted_now {ℓ κ μ} :
    {V : Type ℓ} {C : Type κ} {F : Type μ} → V → Result (Result Bool C) F → List V
accepted_now v (ok (ok true)) = v ∷ []
accepted_now v (ok (ok false)) = []
accepted_now v (ok (err e)) = []
accepted_now v (err e) = []

module _ {E : Env} where
  -- The channel afterwards, the values received and the values accepted.
  unfoldable pub exec : Op E → Chan E → Chan E × List E.Value × List E.Value
  exec (recv w) s = let (t, out) = poll_recv w s in (t, received out, [])
  exec try_recv_now s = let (t, out) = try_recv s in (t, received_now out, [])
  exec (send w v) s = let (t, slot, out) = poll_send w (some v) s in (t, [], accepted v out)
  exec (try_send_now v) s = let (t, out) = try_send v s in (t, [], accepted_now v out)
  exec (untake v) s = (unrecv v s, [], [])
  exec (tick v) s = let (t, pushed) = push_newest v s in (t, [], [])
  exec shut s = (close s, [], [])

  unfoldable pub run : List (Op E) → Chan E → Chan E × List E.Value × List E.Value
  run [] s = (s, [], [])
  run (o ∷ os) s =
      let (t, rs, as') = exec o s in let (u, rs', as'') = run os t in (u, rs ++ rs', as' ++ as'')
