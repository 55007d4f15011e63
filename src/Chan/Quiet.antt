-- ===== src/Chan/Quiet.antt =====
-- src/chan.rs: what a channel looks like while a task is registered as waiting.
use mlua_isle.Base.{
  ℕ, ◌≡◌, ◌≤◌, ◌≢◌, false, [], ◌∷◌, Option, none, length, length-append, init_last,
  length-init_last, arith,
}
use mlua_isle.Tokio.{Env}
use mlua_isle.Chan.{Chan, take_offer, fill_waiter}
use mlua_isle.Chan.Ops.{poll_recv, try_recv, poll_send, try_send, close, unrecv, push_newest}

module _ {E : Env} where
  -- Tasks wait for a value only at an empty open channel, and for room only at a full open one.
  pub record IsQuiet (s : Chan E) : Type 0 where
    pub receivers : s.source ≡ none → s.recv_wakers ≢ [] → (s.buf ≡ []) × (s.closed ≡ false)
    pub senders : s.send_wakers ≢ [] → (s.cap ≤ length s.buf) × (s.closed ≡ false)

  pub poll_recv-IsQuiet : (w : ℕ) (s : Chan E) → IsQuiet s → IsQuiet (poll_recv w s).0
  unfolding poll_recv
  poll_recv-IsQuiet w s h = ground arith

  pub try_recv-IsQuiet : (s : Chan E) → IsQuiet s → IsQuiet (try_recv s).0
  unfolding try_recv take_offer
  try_recv-IsQuiet s h = ground arith

  pub poll_send-IsQuiet :
      (w : ℕ) (slot : Option E.Value) (s : Chan E) → IsQuiet s → IsQuiet (poll_send w slot s).0
  unfolding poll_send
  poll_send-IsQuiet w slot s h = ground arith

  pub try_send-IsQuiet : (v : E.Value) (s : Chan E) → IsQuiet s → IsQuiet (try_send v s).0
  unfolding try_send fill_waiter
  try_send-IsQuiet v s h = ground arith

  pub unrecv-IsQuiet : (v : E.Value) (s : Chan E) → IsQuiet s → IsQuiet (unrecv v s)
  unfolding unrecv
  unrecv-IsQuiet v s h = ground arith

  pub push_newest-IsQuiet : (v : E.Value) (s : Chan E) → IsQuiet s → IsQuiet (push_newest v s).0
  unfolding push_newest
  push_newest-IsQuiet v s h = ground (
    arith,
    length-init_last s.buf,
    length-append (init_last s.buf) (v ∷ []),
    length-append s.buf (v ∷ []),
  )

  pub close-IsQuiet : (s : Chan E) → IsQuiet s → IsQuiet (close s)
  unfolding close
  close-IsQuiet s h = ground arith
