-- ===== src/Chan/Ops.antt =====
-- src/chan.rs: the operations on a buffered channel, a ticker and the ends of a host's channels.
use mlua_isle.Base.{
  ℕ, ◌+◌, ◌-◌, Bool, true, false, ◌||◌, List, [], ◌∷◌, ◌++◌, map, Option, none, some, Result, ok,
  err, Poll, ready, pending, ◌==◌, if◌then◌else◌, update, length, init_last, ltb, leb,
}
use mlua_isle.Tokio.{Env, item, disconnected, permit, full}
use mlua_isle.Tokio
use mlua_isle.Chan.{
  Chan, ChanCore, HostRx, HostTx, Offer, withdrawn, register, set_core, wake_all, receiver_wakers,
  wake_receivers, wake_senders, wake_plain_receivers, take_offer, fill_waiter,
}

-- The channel was closed.
pub data Closed : Type 0 where
  closed_channel : Closed

-- What a receive that does not wait found.
pub data TryRecv (V : Type 0) : Type 0 where
  value : V → TryRecv V
  closed empty : TryRecv V

-- The values after what a slot holds is pushed.
abbrev pub push_slot {ℓ} : {A : Type ℓ} → List A → Option A → List A
push_slot buf none = buf
push_slot buf (some v) = buf ++ v ∷ []

-- What a receive that waits ends with: a value, or none when the channel is closed and empty.
abbrev pub Received : Env → Type 0
Received E = Result (Option E.Value) E.Failure

module _ {E : Env} where
  -- `HostRx::poll_take`, for the task `w`.
  unfoldable pub poll_take : HostRx E → ℕ → HostRx E × Poll (Received E)
  unfolding register
  poll_take r w =
      let (rx', got) = E.poll_recv r.rx in
      (
        record { rx = rx'; fan = register r.fan w },
        elim got [
          | ready (some v) ↦ ready (elim (E.into_lua v) [ ok x ↦ ok (some x) | err e ↦ err e ])
          | ready none ↦ ready (ok none)
          | pending ↦ pending
        ],
      )

  -- `HostRx::try_take`.
  unfoldable pub try_take : HostRx E → HostRx E × Result (TryRecv E.Value) E.Failure
  try_take r =
      let (rx', got) = E.try_recv r.rx in
      (
        record r { rx = rx' },
        elim got [
          | item v ↦ elim (E.into_lua v) [ ok x ↦ ok (value x) | err e ↦ err e ]
          | Tokio.empty ↦ ok empty
          | disconnected ↦ ok closed
        ],
      )

  -- `FanOut::wake_by_ref`, which tokio calls for the receiver's one waker.
  unfoldable pub fan_wake : HostRx E → Chan E → Chan E
  unfolding wake_all set_core
  fan_wake r s =
      wake_all r.fan (set_core s (record (s.core) { source = some (record r { fan = [] }) }))

  unfoldable pub pop_front : E.Value → List E.Value → Chan E → Chan E
  unfolding set_core wake_senders
  pop_front v rest s = wake_senders (set_core s (record (s.core) { buf = rest }))

  unfoldable pub recv_source : HostRx E → ℕ → Chan E → Chan E × Poll (Received E)
  unfolding set_core poll_take
  recv_source r w s =
      let (r', out) = poll_take r w in
      (
        set_core s (record (s.core) { recv_wakers = register s.recv_wakers w; source = some r' }),
        out,
      )

  unfoldable pub poll_recv : ℕ → Chan E → Chan E × Poll (Received E)
  unfolding pop_front recv_source set_core register
  poll_recv w s = elim s.buf [
    | v ∷ rest ↦ (pop_front v rest s, ready (ok (some v)))
    | [] ↦ elim s.source [
      | some r ↦ recv_source r w s
      | none ↦
          if s.closed
          then (s, ready (ok none))
          else (set_core s (record (s.core) { recv_wakers = register s.recv_wakers w }), pending)
    ]
  ]

  unfoldable pub try_source : Chan E → Chan E × Result (TryRecv E.Value) E.Failure
  unfolding set_core try_take
  try_source s = elim s.source [
    | some r ↦
        let (r', out) = try_take r in (set_core s (record (s.core) { source = some r' }), out)
    | none ↦ (s, ok (if s.closed then closed else empty))
  ]

  unfoldable pub try_recv : Chan E → Chan E × Result (TryRecv E.Value) E.Failure
  unfolding pop_front try_source
  try_recv s = elim s.buf [
    | v ∷ rest ↦ (pop_front v rest s, ok (value v))
    | [] ↦
        if s.cap == 0
        then (let (t, got) = take_offer none s in
            elim got [ some v ↦ (t, ok (value v)) | none ↦ try_source s ])
        else try_source s
  ]

  -- A value goes back to the front, past the capacity and after a close too.
  unfoldable pub unrecv : E.Value → Chan E → Chan E
  unfolding set_core wake_receivers
  unrecv v s = wake_receivers (set_core s (record (s.core) { buf = v ∷ s.buf }))

  -- `poll_send`: the channel, the slot and the answer.
  unfoldable pub poll_send :
      ℕ → Option E.Value → Chan E → Chan E × Option E.Value × Poll (Result (Unit {0}) Closed)
  unfolding set_core wake_plain_receivers register
  poll_send w slot s =
      if s.closed
      then (s, slot, ready (err closed_channel))
      else if ltb (length s.buf) s.cap
      then (
        wake_plain_receivers (set_core s (record (s.core) { buf = push_slot s.buf slot })),
        none,
        ready (ok tt),
      )
      else (set_core s (record (s.core) { send_wakers = register s.send_wakers w }), slot, pending)

  -- `SinkPermit::send`: a value that does not convert is not sent, and its room is given back.
  unfoldable pub send_through : HostTx E → E.Value → HostTx E × Result (Unit {0}) E.Failure
  send_through t v = elim (E.from_lua v) [
    | ok i ↦ (record t { tx = E.send_permit t.tx i }, ok tt)
    | err e ↦ (record t { tx = E.drop_permit t.tx }, err e)
  ]

  -- `HostTx::try_reserve`.
  unfoldable pub try_reserve : HostTx E → HostTx E × Result Bool Closed
  try_reserve t =
      if t.live
      then (let (tx', got) = E.try_reserve t.tx in
          (
            record t { tx = tx' },
            elim got [ permit ↦ ok true | full ↦ ok false | Tokio.closed ↦ err closed_channel ],
          ))
      else (t, err closed_channel)

  -- The room that a sender reserves without waiting, with what it sends through it.
  unfoldable pub try_sink : HostTx E → E.Value → HostTx E × Result (Result Bool Closed) E.Failure
  unfolding try_reserve send_through
  try_sink t v =
      let (t', got) = try_reserve t in
      elim got [
        | ok true ↦
            (let (t'', sent) = send_through t' v in
              (t'', elim sent [ ok u ↦ ok (ok true) | err e ↦ err e ]))
        | ok false ↦ (t', ok (ok false))
        | err e ↦ (t', ok (err e))
      ]

  unfoldable pub push_back : E.Value → Chan E → Chan E
  unfolding set_core wake_plain_receivers
  push_back v s = wake_plain_receivers (set_core s (record (s.core) { buf = s.buf ++ v ∷ [] }))

  unfoldable pub try_send : E.Value → Chan E → Chan E × Result (Result Bool Closed) E.Failure
  unfolding push_back try_sink set_core
  try_send v s = if s.closed then (s, ok (err closed_channel)) else elim s.sink [
    | some t ↦
        (let (t', out) = try_sink t v in (set_core s (record (s.core) { sink = some t' }), out))
    | none ↦
        if s.cap == 0
        then (let (t, filled) = fill_waiter v none s in (t, ok (ok filled)))
        else if leb s.cap (length s.buf)
        then (s, ok (ok false))
        else (push_back v s, ok (ok true))
  ]

  abbrev pub withdraw_offers : List ℕ → (ℕ → Offer E) → ℕ → Offer E
  withdraw_offers [] f = f
  withdraw_offers (a ∷ rest) f =
      withdraw_offers rest (update f a (record (f a) { state = withdrawn }))

  abbrev pub close_source : Option (HostRx E) → Option (HostRx E)
  close_source none = none
  close_source (some r) = some (record r { rx = E.close_rx r.rx })

  -- `HostTx::close`: the sending end is dropped, if it was there.
  abbrev pub close_sink : Option (HostTx E) → Option (HostTx E)
  close_sink none = none
  close_sink (some t) =
      some (if t.live then record t { tx = E.drop_sender t.tx; live = false } else t)

  -- The wakers that `close` collects: receivers, senders, waiting senders to the host, offers.
  unfoldable pub close_wakers : Chan E → List ℕ
  unfolding receiver_wakers
  close_wakers s =
      receiver_wakers s
      ++ (s.send_wakers
          ++ (map s.waker_at s.sink_waiters ++ map (λ a. (s.offer_at a).waker) s.offers))

  unfoldable pub close : Chan E → Chan E
  unfolding close_wakers wake_all
  close s =
      if s.closed
      then s
      else wake_all (close_wakers s) (record {
        core = record (s.core) {
          closed = true;
          recv_wakers = [];
          send_wakers = [];
          source = close_source s.source;
          offers = [];
          sink = close_sink s.sink;
        };
        heap = record (s.heap) { offer_at = withdraw_offers s.offers s.offer_at };
      })

  abbrev pub source_closed : Option (HostRx E) → Bool
  source_closed none = false
  source_closed (some r) = E.rx_is_closed r.rx

  -- `HostTx::is_closed`.
  abbrev pub sink_closed : Option (HostTx E) → Bool
  sink_closed none = false
  sink_closed (some t) = if t.live then E.tx_is_closed t.tx else true

  unfoldable pub is_closed : ChanCore E → Bool
  is_closed c = c.closed || (source_closed c.source || sink_closed c.sink)

  abbrev pub source_len : Option (HostRx E) → ℕ
  source_len none = 0
  source_len (some r) = E.rx_len r.rx

  -- `HostTx::len`.
  abbrev pub sink_len : Option (HostTx E) → ℕ
  sink_len none = 0
  sink_len (some t) = if t.live then E.tx_capacity t.tx - E.tx_free t.tx else 0

  unfoldable pub len : ChanCore E → ℕ
  len c = length c.buf + source_len c.source + sink_len c.sink

  unfoldable pub capacity : ChanCore E → ℕ
  capacity c = elim c.source [
    | some r ↦ E.rx_capacity r.rx
    | none ↦ elim c.sink [ some t ↦ t.capacity | none ↦ c.cap ]
  ]

  -- The ticker's push: it replaces the newest tick if the channel is full.
  unfoldable pub push_newest : E.Value → Chan E → Chan E × Bool
  unfolding set_core wake_receivers
  push_newest v s = if s.closed then (s, false) else (
    wake_receivers (
        set_core s (record (s.core) {
          buf = (if leb s.cap (length s.buf) then init_last s.buf else s.buf) ++ v ∷ [];
        })),
    true,
  )
