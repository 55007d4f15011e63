-- ===== src/Chan/Fifo.antt =====
-- src/chan.rs: the order in which a buffered channel hands values on, and how many it holds.
use mathlib.Core.List.{append-nil, append_assoc}
use mlua_isle.Base.{
  ℕ, ◌≡◌, ◌≤◌, ◌<◌, sym, ap, ◌∙◌, List, [], ◌∷◌, ◌++◌, none, some, length, length-append, init_last,
  length-init_last, arith, ready, ok,
}
use mlua_isle.Tokio.{Env}
use mlua_isle.Chan.{Chan}
use mlua_isle.Chan.Ops.{poll_recv, try_recv, poll_send, try_send, close, unrecv, push_newest}
use mlua_isle.Chan.Trace.{Op, recv, try_recv_now, send, try_send_now, untake, tick, shut, exec, run}

-- A buffered channel of `task.channel`.
pub record IsLocal {E : Env} (s : Chan E) : Type 0 where
  pub no_source : s.source ≡ none
  pub no_sink : s.sink ≡ none
  pub room : 0 < s.cap

-- The operations of Lua code: no value is put back, and no ticker pushes.
abbrev pub IsPlain : {E : Env} → Op E → Type 0
IsPlain (untake v) = ⊥
IsPlain (tick v) = ⊥
IsPlain (recv w) = Unit {0}
IsPlain try_recv_now = Unit {0}
IsPlain (send w v) = Unit {0}
IsPlain (try_send_now v) = Unit {0}
IsPlain shut = Unit {0}

abbrev pub ArePlain : {E : Env} → List (Op E) → Type 0
ArePlain [] = Unit {0}
ArePlain (o ∷ os) = IsPlain o × ArePlain os

module _ {E : Env} where
  abbrev Flows : Chan E → Chan E × List E.Value × List E.Value → Type 0
  Flows s (t, rs, vs) =
      (rs ++ t.buf ≡ s.buf ++ vs) × (t.source ≡ none) × (t.sink ≡ none) × (t.cap ≡ s.cap)

  exec-Flows : (o : Op E) (s : Chan E) → IsLocal s → IsPlain o → Flows s (exec o s)
  unfolding exec poll_recv try_recv poll_send try_send close
  exec-Flows (recv w) s h p = ground (arith, append-nil s.buf)
  exec-Flows try_recv_now s h p = ground (arith, append-nil s.buf)
  exec-Flows (send w v) s h p = ground (arith, append-nil s.buf)
  exec-Flows (try_send_now v) s h p = ground (arith, append-nil s.buf)
  exec-Flows shut s h p = ground (arith, append-nil s.buf)
  exec-Flows (untake v) s h p = elim p [ ]
  exec-Flows (tick v) s h p = elim p [ ]

  -- In any run of receives, sends and closes on a buffered local channel, by any tasks, with no tick
  -- and no value put back (a select that undoes a receive), the values received followed by those still queued are those queued at first followed by those accepted.
  pub run_fifo :
      (os : List (Op E)) (s : Chan E)
      → IsLocal s
      → ArePlain os
      → (run os s).1 ++ (run os s).0.buf ≡ s.buf ++ (run os s).2
  unfolding run
  run_fifo [] s h p = sym (append-nil s.buf)
  run_fifo (o ∷ os) s h p =
      let (t, rs, vs) = exec o s in
      let (u, rs', vs') = run os t in
      let (f, a, b, c) = exec-Flows o s h p.0 in
      let ih = run_fifo os t (record { no_source = a; no_sink = b; room = rw c h.room }) p.1 in
      append_assoc rs rs' u.buf
      ∙ (ap (◌++◌ rs) ih
          ∙ (sym (append_assoc rs t.buf vs') ∙ (ap (λ l. l ++ vs') f ∙ append_assoc s.buf vs vs')))

  -- No value is put back.
  abbrev pub NoUntake : Op E → Type 0
  NoUntake (untake v) = ⊥
  NoUntake (recv w) = Unit {0}
  NoUntake try_recv_now = Unit {0}
  NoUntake (send w v) = Unit {0}
  NoUntake (try_send_now v) = Unit {0}
  NoUntake (tick v) = Unit {0}
  NoUntake shut = Unit {0}

  abbrev pub NoUntakes : List (Op E) → Type 0
  NoUntakes [] = Unit {0}
  NoUntakes (o ∷ os) = NoUntake o × NoUntakes os

  abbrev IsBounded : Chan E → Type 0
  IsBounded s = (length s.buf ≤ s.cap) × (0 < s.cap)

  exec-IsBounded : (o : Op E) (s : Chan E) → NoUntake o → IsBounded s → IsBounded (exec o s).0
  unfolding exec poll_recv try_recv poll_send try_send close push_newest
  exec-IsBounded (recv w) s p b = ground arith
  exec-IsBounded try_recv_now s p b = ground arith
  exec-IsBounded (send w v) s p b = ground (arith, length-append s.buf (v ∷ []))
  exec-IsBounded (try_send_now v) s p b = ground (arith, length-append s.buf (v ∷ []))
  exec-IsBounded shut s p b = ground arith
  exec-IsBounded (untake v) s p b = elim p [ ]
  exec-IsBounded (tick v) s p b = ground (
    arith,
    length-init_last s.buf,
    length-append (init_last s.buf) (v ∷ []),
    length-append s.buf (v ∷ []),
  )

  -- When the buffer of a channel of positive capacity has at most `cap` values, it has at most `cap`
  -- after any run in which none is put back. The values that the tokio channel of a host end holds are
  -- not in that buffer and are not counted.
  pub run-IsBounded :
      (os : List (Op E)) (s : Chan E)
      → NoUntakes os
      → length s.buf ≤ s.cap
      → 0 < s.cap
      → length (run os s).0.buf ≤ (run os s).0.cap
  unfolding run
  run-IsBounded [] s p b c = b
  run-IsBounded (o ∷ os) s p b c =
      let (b', c') = exec-IsBounded o s p.0 (b, c) in run-IsBounded os (exec o s).0 p.1 b' c'

  -- On a channel with no host behind it, a value that a poll of a receive took and that is put back
  -- is queued where it was, and the next poll receives it.
  pub unrecv_restores :
      (w : ℕ) (s : Chan E) (v : E.Value)
      → s.source ≡ none
      → (poll_recv w s).1 ≡ ready (ok (some v))
      → ((unrecv v (poll_recv w s).0).buf ≡ s.buf)
        × ((poll_recv w (unrecv v (poll_recv w s).0)).1 ≡ ready (ok (some v)))
  unfolding poll_recv unrecv
  unrecv_restores w s v h e = ground arith
