-- ===== src/Chan/Send.antt =====
-- src/chan.rs, `Sending`: a send in progress, which on a rendezvous channel holds an offer and on a
-- channel to the host a reservation of room.
use mlua_isle.Base.{
  ℕ, suc, Bool, true, false, not, [], ◌∷◌, ◌++◌, Option, none, some, Result, ok, err, Poll, ready,
  pending, ◌==◌, if◌then◌else◌, update,
}
use mlua_isle.Tokio.{Env}
use mlua_isle.Chan.{
  Chan, HostTx, offered, taken, withdrawn, set_core, wake_receivers, fill_waiter, remove, get_or,
  is_offered,
}
use mlua_isle.Chan.Ops.{Closed, closed_channel, poll_send, try_reserve, send_through}

pub record Sending (E : Env) : Type 0 where
  pub value : Option E.Value
  pub select : Option ℕ
  pub offer : Option ℕ
  pub eager : Bool
  pub reserve : Option E.Ticket
  pub sink_wait : Option ℕ

abbrev pub Sent : Type 0
Sent = Result (Unit {0}) Closed

module _ {E : Env} where
  unfoldable pub new : E.Value → Option ℕ → Sending E
  new v select = record {
    value = some v;
    select = select;
    offer = none;
    eager = false;
    reserve = none;
    sink_wait = none;
  }

  unfoldable pub set_eager : Sending E → Sending E
  set_eager d = record d { eager = true }

  -- `HostTx::reserve`: a ticket, or the close of Lua.
  unfoldable pub reserve : HostTx E → HostTx E × Option E.Ticket
  reserve t =
      if t.live
      then (let (tx', k) = E.reserve t.tx in (record t { tx = tx' }, some k))
      else (t, none)

  unfoldable pub set_sink : HostTx E → Chan E → Chan E
  unfolding set_core
  set_sink t s = set_core s (record (s.core) { sink = some t })

  -- `wait_sink`: this sender's entry in `sink_waiters`, new or with its waker replaced.
  unfoldable pub wait_sink : Sending E → ℕ → Chan E → Chan E × Sending E
  wait_sink d w s = elim d.sink_wait [
    | some a ↦ (record s { heap = record (s.heap) { waker_at = update s.waker_at a w } }, d)
    | none ↦ (
      record s {
        core = record (s.core) { sink_waiters = s.sink_waiters ++ s.next ∷ [] };
        heap = record (s.heap) { waker_at = update s.waker_at s.next w; next = suc s.next };
      },
      record d { sink_wait = some s.next },
    )
  ]

  unfoldable pub drop_reservation : Option E.Ticket → Chan E → Chan E
  unfolding set_sink
  drop_reservation none s = s
  drop_reservation (some k) s = elim s.sink [
    | none ↦ s
    | some t ↦ set_sink (record t { tx = E.drop_ticket t.tx k }) s
  ]

  unfoldable pub leave_sink : Option ℕ → Chan E → Chan E
  unfolding set_core
  leave_sink none s = s
  leave_sink (some a) s = set_core s (record (s.core) { sink_waiters = remove a s.sink_waiters })

  unfoldable pub retract : ℕ → Chan E → Chan E
  retract a s = record s {
    core = record (s.core) { offers = remove a s.offers };
    heap = record (s.heap) {
      offer_at = update s.offer_at a (record (s.offer_at a) { state = withdrawn });
    };
  }

  unfoldable pub withdraw_offer : Option ℕ → Chan E → Chan E × Option ℕ
  unfolding retract
  withdraw_offer none s = (s, none)
  withdraw_offer (some a) s =
      if is_offered (s.offer_at a).state then (retract a s, none) else (s, some a)

  unfoldable pub withdraw : Sending E → Chan E → Chan E × Sending E
  unfolding drop_reservation leave_sink withdraw_offer
  withdraw d s =
      let (t, o) = withdraw_offer d.offer (leave_sink d.sink_wait (drop_reservation d.reserve s)) in
      (t, record d { reserve = none; sink_wait = none; offer = o })

  -- The value is converted and sent through the room that was reserved.
  unfoldable pub send_reserved :
      HostTx E → Sending E → Chan E → Chan E × Sending E × Poll (Result Sent E.Failure)
  unfolding send_through set_sink
  send_reserved t d s =
      let (t', out) = send_through t (get_or d.value E.nil) in
      (
        set_sink t' s,
        record d { value = none },
        ready (elim out [ ok u ↦ ok (ok tt) | err e ↦ err e ]),
      )

  unfoldable pub sink_eager :
      HostTx E → Sending E → Chan E → Chan E × Sending E × Poll (Result Sent E.Failure)
  unfolding try_reserve send_reserved set_sink
  sink_eager t d s =
      let (t', got) = try_reserve t in
      elim got [
        | ok true ↦ send_reserved t' d s
        | ok false ↦ (set_sink t' s, d, pending)
        | err e ↦ (set_sink t' s, d, ready (ok (err e)))
      ]

  -- The poll of a reservation `k`. A reservation that ended has no place left to give back.
  unfoldable pub sink_reserving :
      HostTx E
      → E.Ticket
      → Sending E
      → ℕ
      → Chan E
      → Chan E × Sending E × Poll (Result Sent E.Failure)
  unfolding set_sink wait_sink send_reserved withdraw
  sink_reserving t k d w s =
      let (tx', got) = E.poll_reserve t.tx k w in
      let t' = record t { tx = tx' } in
      elim got [
        | pending ↦
            (let (s', d') = wait_sink (record d { reserve = some k }) w (set_sink t' s) in
              (s', d', pending))
        | ready room ↦
            (let (s', d') = withdraw (record d { reserve = none }) (set_sink t' s) in
              if room then send_reserved t' d' s' else (s', d', ready (ok (err closed_channel))))
      ]

  unfoldable pub sink_waiting :
      HostTx E → Sending E → ℕ → Chan E → Chan E × Sending E × Poll (Result Sent E.Failure)
  unfolding sink_reserving reserve set_sink
  sink_waiting t d w s = elim d.reserve [
    | some k ↦ sink_reserving t k d w s
    | none ↦
        (let (t', got) = reserve t in
          elim got [
            | some k ↦ sink_reserving t' k d w s
            | none ↦ (s, d, ready (ok (err closed_channel)))
          ])
  ]

  unfoldable pub poll_sink :
      HostTx E → Sending E → ℕ → Chan E → Chan E × Sending E × Poll (Result Sent E.Failure)
  unfolding withdraw sink_eager sink_waiting
  poll_sink t d w s =
      if s.closed
      then (let (s', d') = withdraw d s in (s', d', ready (ok (err closed_channel))))
      else if d.eager
      then sink_eager t d s
      else sink_waiting t d w s

  -- The answer of an offer that was posted before.
  unfoldable pub poll_offer : ℕ → Sending E → ℕ → Chan E → Chan E × Sending E × Poll Sent
  poll_offer a d w s = elim (s.offer_at a).state [
    | taken ↦ (s, d, ready (ok tt))
    | withdrawn ↦ (s, d, ready (err closed_channel))
    | offered ↦ (
      record s {
        heap = record (s.heap) {
          offer_at = update s.offer_at a (record (s.offer_at a) { waker = w });
        };
      },
      d,
      pending,
    )
  ]

  unfoldable pub post_offer : Sending E → ℕ → Chan E → Chan E × Sending E
  unfolding wake_receivers
  post_offer d w s = (
    wake_receivers (record s {
      core = record (s.core) { offers = s.offers ++ s.next ∷ [] };
      heap = record (s.heap) {
        offer_at =
            update s.offer_at s.next
              (record { value = d.value; state = offered; waker = w; select = d.select });
        next = suc s.next;
      };
    }),
    record d { value = none; offer = some s.next },
  )

  unfoldable pub poll_eager : Sending E → Chan E → Chan E × Sending E × Poll Sent
  unfolding fill_waiter
  poll_eager d s = elim d.value [
    | none ↦ (s, d, pending)
    | some v ↦
        (let (t, filled) = fill_waiter v d.select s in
          if filled then (t, record d { value = none }, ready (ok tt)) else (s, d, pending))
  ]

  unfoldable pub poll_rendezvous : Sending E → ℕ → Chan E → Chan E × Sending E × Poll Sent
  unfolding poll_offer post_offer poll_eager
  poll_rendezvous d w s = elim d.offer [
    | some a ↦ poll_offer a d w s
    | none ↦
        if s.closed
        then (s, d, ready (err closed_channel))
        else if d.eager
        then poll_eager d s
        else (let (t, d') = post_offer d w s in (t, d', pending))
  ]

  unfoldable pub poll_local : Sending E → ℕ → Chan E → Chan E × Sending E × Poll Sent
  unfolding poll_rendezvous poll_send
  poll_local d w s =
      if not (s.cap == 0)
      then (let (t, slot, out) = poll_send w d.value s in (t, record d { value = slot }, out))
      else poll_rendezvous d w s

  unfoldable pub poll : Sending E → ℕ → Chan E → Chan E × Sending E × Poll (Result Sent E.Failure)
  unfolding poll_sink poll_local
  poll d w s = elim s.sink [
    | some t ↦ poll_sink t d w s
    | none ↦
        (let (s', d', out) = poll_local d w s in
          (s', d', elim out [ ready r ↦ ready (ok r) | pending ↦ pending ]))
  ]

  -- Whether a receiver took the offer.
  unfoldable pub delivered : Sending E → Chan E → Bool
  delivered d s = elim d.offer [
    | none ↦ false
    | some a ↦ elim (s.offer_at a).state [ taken ↦ true | _ ↦ false ]
  ]
