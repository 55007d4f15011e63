-- ===== src/Chan/Wakeups.antt =====
-- src/chan.rs: the wake-ups of waiting tasks.
use mlua_isle.Base.{ℕ, ◌≡◌, ◌<◌, ◌≢◌, true, List, [], ◌∷◌, none, some, count, length, arith, ◌⊎◌}
use mlua_isle.Tokio.{Env}
use mlua_isle.Chan.{Chan}
use mlua_isle.Chan.Quiet.{
  IsQuiet, poll_recv-IsQuiet, try_recv-IsQuiet, poll_send-IsQuiet, try_send-IsQuiet, unrecv-IsQuiet,
  push_newest-IsQuiet, close-IsQuiet,
}
use mlua_isle.Chan.Remember.{
  Remembers, poll_recv-Remembers, try_recv-Remembers, poll_send-Remembers, try_send-Remembers,
  unrecv-Remembers, push_newest-Remembers, close-Remembers,
}
use mlua_isle.Chan.Trace.{Op, recv, try_recv_now, send, try_send_now, untake, tick, shut, exec, run}

module _ {E : Env} where
  exec-IsQuiet : (o : Op E) (s : Chan E) → IsQuiet s → IsQuiet (exec o s).0
  unfolding exec
  exec-IsQuiet (recv w) s h = poll_recv-IsQuiet w s h
  exec-IsQuiet try_recv_now s h = try_recv-IsQuiet s h
  exec-IsQuiet (send w v) s h = poll_send-IsQuiet w (some v) s h
  exec-IsQuiet (try_send_now v) s h = try_send-IsQuiet v s h
  exec-IsQuiet (untake v) s h = unrecv-IsQuiet v s h
  exec-IsQuiet (tick v) s h = push_newest-IsQuiet v s h
  exec-IsQuiet shut s h = close-IsQuiet s h

  exec-Remembers : (w : ℕ) (o : Op E) (s : Chan E) → Remembers w s (exec o s).0
  unfolding exec
  exec-Remembers w (recv x) s = poll_recv-Remembers w x s
  exec-Remembers w try_recv_now s = try_recv-Remembers w s
  exec-Remembers w (send x v) s = poll_send-Remembers w x (some v) s
  exec-Remembers w (try_send_now v) s = try_send-Remembers w v s
  exec-Remembers w (untake v) s = unrecv-Remembers w v s
  exec-Remembers w (tick v) s = push_newest-Remembers w v s
  exec-Remembers w shut s = close-Remembers w s

  run-IsQuiet : (os : List (Op E)) (s : Chan E) → IsQuiet s → IsQuiet (run os s).0
  unfolding run
  run-IsQuiet [] s h = h
  run-IsQuiet (o ∷ os) s h = run-IsQuiet os (exec o s).0 (exec-IsQuiet o s h)

  run-Remembers : (w : ℕ) (os : List (Op E)) (s : Chan E) → Remembers w s (run os s).0
  unfolding run
  run-Remembers w [] s = (omega arith, omega arith, (λ e. e, λ e. e))
  run-Remembers w (o ∷ os) s = ground (arith, exec-Remembers w o s, run-Remembers w os (exec o s).0)

  -- On a channel with no host behind it where tasks wait for a value only while it is empty and open,
  -- and for room only while it is full and open: a task that is registered for a value (in
  -- `recv_wakers`) has been woken by the time that there is a value or the channel is closed, whatever
  -- the tasks did in between.
  pub receiver_woken :
      (w : ℕ) (os : List (Op E)) (s : Chan E)
      → IsQuiet s
      → s.source ≡ none
      → 0 < count w s.recv_wakers
      → ((run os s).0.buf ≢ []) ⊎ ((run os s).0.closed ≡ true)
      → count w s.woken < count w (run os s).0.woken
  receiver_woken w os s h l c d = ground (arith, run-IsQuiet os s h, run-Remembers w os s)

  -- On a channel where tasks wait for room only while it is full and open, and for a value only while
  -- it is empty and open: a task that is registered for room (in `send_wakers`) has been woken by the
  -- time that there is room or the channel is closed, whatever the tasks did in between.
  pub sender_woken :
      (w : ℕ) (os : List (Op E)) (s : Chan E)
      → IsQuiet s
      → 0 < count w s.send_wakers
      → (length (run os s).0.buf < (run os s).0.cap) ⊎ ((run os s).0.closed ≡ true)
      → count w s.woken < count w (run os s).0.woken
  sender_woken w os s h c d = ground (arith, run-IsQuiet os s h, run-Remembers w os s)
