-- ===== src/TaskLib/Channels.antt =====
-- src/task_lib.rs: the functions of the channels, timers, tickers and selects of the library, over those of
-- Chan and Select. A call that waits is given by its polls, for the task `p`; `token` is whether the current
-- token, if there is one, is cancelled.
use Prim.Native.String.{◌++◌}
use mlua_isle.Base.{
  String, ℕ, suc, Bool, true, false, Option, none, some, Result, ok, err, Poll, ready, pending,
  if◌then◌else◌, map_poll, get_elem?, set, leb,
}
use mlua_isle.Tokio.{Env}
use mlua_isle.Chan.{Chan, ChanCore, new, send_only, receive_only}
use mlua_isle.Chan.Ops.{Closed, TryRecv, value, try_recv, try_send, close, push_newest}
use mlua_isle.Chan.Receive.{Receiving}
use mlua_isle.Chan.Receive
use mlua_isle.Chan.Send.{Sending}
use mlua_isle.Select.{
  World, SelectFuture, Values, Outcome, poll_now, wait_select, wait_send, untake, map_received,
}
use mlua_isle.Select.Cases.{DefaultCase, no_default, handler_default}

-- The capacity of `task.channel`, an integer, or a float, of which `whole` is its value if it has no fraction.
pub data Capacity : Type 0 where
  integer : ℕ → Capacity
  negative : Capacity
  float : (whole : Option ℕ) → Capacity
  no_number : Capacity

-- What a select answers: the values of its case, after its position in the raw form, which is 0 where
-- the default was taken; or it calls the handler of a case, or the default.
pub data Answer (E : Env) : Type 0 where
  raw_values : ℕ → Values E → Answer E
  raw_none : Answer E
  call_handler : ℕ → Values E → Answer E
  call_default : ℕ → Answer E

-- What `cancellable` makes of a poll of a wait.
abbrev pub under_token :
    (E : Env) {A : Type 0} → Option Bool → Poll (Result A E.Failure) → Poll (Result A E.Failure)
under_token E (some true) out = ready (err E.cancel_error)
under_token E (some false) out = out
under_token E none out = out

module _ (E : Env) where
  abbrev pub closed_error : String → E.Failure
  closed_error method = E.runtime (method ++ ": channel is closed")

  unfoldable pub check_sendable : String → ChanCore E → Option E.Failure
  check_sendable method c = elim (receive_only c) [
    | none ↦ none
    | some why ↦ some (E.runtime (method ++ ": channel is receive-only (" ++ why ++ ")"))
  ]

  unfoldable pub check_receivable : String → ChanCore E → Option E.Failure
  check_receivable method c = elim (send_only c) [
    | none ↦ none
    | some why ↦ some (E.runtime (method ++ ": channel is send-only (" ++ why ++ ")"))
  ]

  -- `raw.chan`.
  unfoldable pub chan_raw : Capacity → Result (ChanCore E) E.Failure
  unfolding new
  chan_raw (integer n) = ok (new E n)
  chan_raw (float (some n)) = ok (new E n)
  chan_raw c = err (E.runtime "task.channel: cap must be an integer >= 0")

  -- What `ch:send` makes of the end of its wait.
  abbrev pub sent_or_closed :
      String → Result (Result (Unit {0}) Closed) E.Failure → Result (Unit {0}) E.Failure
  sent_or_closed method (ok (ok u)) = ok u
  sent_or_closed method (ok (err c)) = err (closed_error method)
  sent_or_closed method (err e) = err e

  -- One poll of `ch:send`, whose future starts as `Sending.new v none`.
  unfoldable pub send_raw :
      Option Bool → Sending E → ℕ → Chan E → Chan E × Sending E × Poll (Result (Unit {0}) E.Failure)
  unfolding check_sendable wait_send
  send_raw token d p s = elim (check_sendable "ch:send" s.core) [
    | some e ↦ (s, d, ready (err e))
    | none ↦
        let (t, d', out) = wait_send token d p s in (t, d', map_poll (sent_or_closed "ch:send") out)
  ]

  abbrev pub tried : Chan E × Result (Result Bool Closed) E.Failure → Chan E × Result Bool E.Failure
  tried (s, ok (ok b)) = (s, ok b)
  tried (s, ok (err c)) = (s, err (closed_error "ch:try_send"))
  tried (s, err e) = (s, err e)

  unfoldable pub try_send_raw : E.Value → Chan E → Chan E × Result Bool E.Failure
  unfolding check_sendable try_send
  try_send_raw v s = elim (check_sendable "ch:try_send" s.core) [
    | some e ↦ (s, err e)
    | none ↦ tried (try_send v s)
  ]

  -- One poll of `ch:recv`, whose future starts as `Receiving.new none`.
  unfoldable pub recv_raw :
      Option Bool → Receiving → ℕ → Chan E → Chan E × Receiving × Poll (Result (Values E) E.Failure)
  unfolding check_receivable
  recv_raw (some true) r p s = elim (check_receivable "ch:recv" s.core) [
    | some e ↦ (s, r, ready (err e))
    | none ↦ (s, r, ready (err E.cancel_error))
  ]
  recv_raw token r p s = elim (check_receivable "ch:recv" s.core) [
    | some e ↦ (s, r, ready (err e))
    | none ↦ let (t, r', out) = Receive.poll r p s in (t, r', map_poll map_received out)
  ]

  -- `value, received, decided`.
  abbrev pub try_values : TryRecv E.Value → E.Value × (Bool × Bool)
  try_values (value v) = (v, (true, true))
  try_values TryRecv.closed = (E.nil, (false, true))
  try_values TryRecv.empty = (E.nil, (false, false))

  abbrev pub map_tried :
      Chan E × Result (TryRecv E.Value) E.Failure
      → Chan E × Result (E.Value × (Bool × Bool)) E.Failure
  map_tried (s, ok got) = (s, ok (try_values got))
  map_tried (s, err e) = (s, err e)

  unfoldable pub try_recv_raw : Chan E → Chan E × Result (E.Value × (Bool × Bool)) E.Failure
  unfolding check_receivable try_recv
  try_recv_raw s = elim (check_receivable "ch:try_recv" s.core) [
    | some e ↦ (s, err e)
    | none ↦ map_tried (try_recv s)
  ]

  -- One poll of `t:wait`.
  unfoldable pub wait_raw : Option Bool → (deadline now : ℕ) → Poll (Result (Unit {0}) E.Failure)
  wait_raw token deadline now =
      under_token E token (if leb deadline now then ready (ok tt) else pending)

  -- One tick of `run_ticker`, `at` being its time; it gives whether the ticker goes on. Its end, by a
  -- cancel or by a channel that is closed, closes the channel (`CloseOnDrop`).
  unfoldable pub run_ticker : Option Bool → (at : E.Value) → Chan E → Chan E × Bool
  unfolding push_newest close
  run_ticker (some true) at s = (close s, false)
  run_ticker token at s =
      let (t, pushed) = push_newest at s in if pushed then (t, true) else (close t, false)

  -- `tk:stop`, but for the cancel of its task.
  unfoldable pub stop_raw : Chan E → Chan E
  unfolding close
  stop_raw s = close s

  abbrev pub raw_answer : Outcome E → Result (Answer E) E.Failure
  raw_answer (ok (i, values)) = ok (raw_values (suc i) values)
  raw_answer (err e) = err e

  -- One poll of `select_raw`.
  unfoldable pub select_raw :
      DefaultCase
      → Option Bool
      → ℕ
      → SelectFuture E
      → ℕ
      → World E
      → World E × SelectFuture E × Poll (Result (Answer E) E.Failure)
  unfolding wait_select poll_now
  select_raw no_default token noop f p w =
      let (u, g, out) = wait_select token f p w in (u, g, map_poll raw_answer out)
  select_raw d token noop f p w =
      let (u, g, out) = poll_now noop f w in
      elim out [ some o ↦ (u, g, ready (raw_answer o)) | none ↦ (u, g, ready (ok raw_none)) ]

  -- One poll of `select` up to the call of a handler.
  unfoldable pub select_handlers :
      DefaultCase
      → Option Bool
      → ℕ
      → SelectFuture E
      → ℕ
      → World E
      → World E × SelectFuture E × Poll (Result (Answer E) E.Failure)
  unfolding wait_select poll_now
  select_handlers (handler_default h) token noop f p w =
      let (u, g, out) = poll_now noop f w in
      elim out [
        | some (ok (i, values)) ↦ (u, g, ready (ok (call_handler i values)))
        | some (err e) ↦ (u, g, ready (err e))
        | none ↦ (u, g, ready (ok (call_default h)))
      ]
  select_handlers d token noop f p w =
      let (u, g, out) = wait_select token f p w in
      elim out [
        | ready (ok (i, values)) ↦ (u, g, ready (ok (call_handler i values)))
        | ready (err e) ↦ (u, g, ready (err e))
        | pending ↦ (u, g, pending)
      ]

  -- The call of the handler at `i` failed before it was entered: its values are given back.
  unfoldable pub handler_failed : ℕ → Values E → SelectFuture E → World E → World E × SelectFuture E
  unfolding untake
  handler_failed i values f w = elim (get_elem? f.arms i) [
    | none ↦ (w, f)
    | some a ↦ let (u, b) = untake a values w in (u, record f { arms = set f.arms i b })
  ]
