-- ===== src/Chan/Remember.antt =====
-- src/chan.rs: the tasks that an operation takes off a channel, and those that it wakes.
use mlua_isle.Base.{
  ℕ, ◌+◌, ◌≡◌, ◌≤◌, ◌↔◌, List, [], ◌∷◌, ◌++◌, map, Option, none, count, count-append, arith,
  Option-cases, inl, inr,
}
use mlua_isle.Tokio.{Env}
use mlua_isle.Chan.{
  Chan, register, take_offer, fill_waiter, find, may_take, may_fill, receiver_wakers,
}
use mlua_isle.Chan.Ops.{
  poll_recv, try_recv, poll_send, try_send, close, unrecv, push_newest, close_wakers,
}

register-count : (w x : ℕ) (ws : List ℕ) → count w ws ≤ count w (register ws x)
unfolding register
register-count w x ws = ground (arith, count-append w ws (x ∷ []))

module _ {E : Env} where
  -- Task `w` is still on the list, or was woken since.
  abbrev pub Remembers : ℕ → Chan E → Chan E → Type 0
  Remembers w s t =
      (count w s.recv_wakers + count w s.woken ≤ count w t.recv_wakers + count w t.woken)
      × (count w s.send_wakers + count w s.woken ≤ count w t.send_wakers + count w t.woken)
      × (t.source ≡ none ↔ s.source ≡ none)

  take_offer-Remembers : (w : ℕ) (me : Option ℕ) (s : Chan E) → Remembers w s (take_offer me s).0
  unfolding take_offer
  take_offer-Remembers w me s = elim (Option-cases (find (may_take s.heap me) s.offers)) [
    | inl e ↦ ground arith
    | inr (a, e) ↦ ground (arith, count-append w s.woken ((s.offer_at a).waker ∷ []))
  ]

  fill_waiter-Remembers :
      (w : ℕ) (v : E.Value) (me : Option ℕ) (s : Chan E) → Remembers w s (fill_waiter v me s).0
  unfolding fill_waiter
  fill_waiter-Remembers w v me s = elim (Option-cases (find (may_fill s.heap me) s.waiters)) [
    | inl e ↦ ground arith
    | inr (a, e) ↦ ground (arith, count-append w s.woken ((s.waiter_at a).waker ∷ []))
  ]

  pub poll_recv-Remembers : (w x : ℕ) (s : Chan E) → Remembers w s (poll_recv x s).0
  unfolding poll_recv
  poll_recv-Remembers w x s =
      ground (arith, count-append w s.woken s.send_wakers, register-count w x s.recv_wakers)

  pub try_recv-Remembers : (w : ℕ) (s : Chan E) → Remembers w s (try_recv s).0
  unfolding try_recv
  try_recv-Remembers w s =
      ground (arith, count-append w s.woken s.send_wakers, take_offer-Remembers w none s)

  pub poll_send-Remembers :
      (w x : ℕ) (slot : Option E.Value) (s : Chan E) → Remembers w s (poll_send x slot s).0
  unfolding poll_send
  poll_send-Remembers w x slot s =
      ground (arith, count-append w s.woken s.recv_wakers, register-count w x s.send_wakers)

  pub try_send-Remembers : (w : ℕ) (v : E.Value) (s : Chan E) → Remembers w s (try_send v s).0
  unfolding try_send
  try_send-Remembers w v s =
      ground (arith, count-append w s.woken s.recv_wakers, fill_waiter-Remembers w v none s)

  receiver_wakers-count : (w : ℕ) (s : Chan E) → count w s.recv_wakers ≤ count w (receiver_wakers s)
  unfolding receiver_wakers
  receiver_wakers-count w s =
      omega (arith, count-append w s.recv_wakers (map (λ a. (s.waiter_at a).waker) s.waiters))

  pub unrecv-Remembers : (w : ℕ) (v : E.Value) (s : Chan E) → Remembers w s (unrecv v s)
  unfolding unrecv
  unrecv-Remembers w v s =
      ground (arith, count-append w s.woken (receiver_wakers s), receiver_wakers-count w s)

  pub push_newest-Remembers : (w : ℕ) (v : E.Value) (s : Chan E) → Remembers w s (push_newest v s).0
  unfolding push_newest
  push_newest-Remembers w v s =
      ground (arith, count-append w s.woken (receiver_wakers s), receiver_wakers-count w s)

  close_wakers-count :
      (w : ℕ) (s : Chan E)
      → (count w s.recv_wakers ≤ count w (close_wakers s))
        × (count w s.send_wakers ≤ count w (close_wakers s))
  unfolding close_wakers
  close_wakers-count w s =
      let rest = map s.waker_at s.sink_waiters ++ map (λ a. (s.offer_at a).waker) s.offers in
      let a = receiver_wakers-count w s in
      let b = count-append w (receiver_wakers s) (s.send_wakers ++ rest) in
      let c = count-append w s.send_wakers rest in (omega arith, omega arith)

  pub close-Remembers : (w : ℕ) (s : Chan E) → Remembers w s (close s)
  unfolding close
  close-Remembers w s =
      ground (arith, count-append w s.woken (close_wakers s), close_wakers-count w s)
