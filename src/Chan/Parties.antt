-- ===== src/Chan/Parties.antt =====
-- src/chan.rs: the receives and sends of any tasks on one rendezvous channel, in any order.
use mlua_isle.Base.{
  ℕ, ◌≡◌, refl, sym, subst, true, false, List, [], ◌∷◌, Option, none, some, is_some, arith,
  Bool-cases, Option-cases, inl, inr,
}
use mlua_isle.Tokio.{Env}
use mlua_isle.Chan.{Chan, is_offered, take_offer, fill_waiter, set_core}
use mlua_isle.Chan.Ops.{close}
use mlua_isle.Chan.Receive.{Receiving, slot_of, take_slot, forget, poll_offers, give_back}
use mlua_isle.Chan.Receive
use mlua_isle.Chan.Send.{
  Sending, poll_offer, post_offer, poll_eager, withdraw_offer, drop_reservation, leave_sink,
}
use mlua_isle.Chan.Send
use mlua_isle.Chan.Rendezvous.{IsFormed}
use mlua_isle.Chan.Formed.{
  take_offer-IsFormed, fill_waiter-IsFormed, forget-IsFormed, untouched-IsFormed, wait-IsFormed,
  post_offer-IsFormed, retract-IsFormed, close-IsFormed,
}

-- A poll of a receive or a send by a task, the drop of one, or a close.
pub data Move (E : Env) : Type 0 where
  receives : Receiving → ℕ → Move E
  leaves : Receiving → Move E
  sends : Sending E → ℕ → Move E
  retracts : Sending E → Move E
  shuts : Move E

module _ {E : Env} where
  unfoldable pub act : Move E → Chan E → Chan E
  act (receives r w) s = (Receive.poll_rendezvous r w s).0
  act (leaves r) s = (Receive.withdraw r s).0
  act (sends d w) s = (Send.poll_rendezvous d w s).0
  act (retracts d) s = (Send.withdraw d s).0
  act shuts s = close s

  unfoldable pub act_all : List (Move E) → Chan E → Chan E
  act_all [] s = s
  act_all (m ∷ ms) s = act_all ms (act m s)

  -- A send that has no offer out still has its value.
  abbrev pub IsReady : Move E → Type 0
  IsReady (receives r w) = Unit {0}
  IsReady (leaves r) = Unit {0}
  IsReady (sends d w) = d.offer ≡ none → is_some d.value ≡ true
  IsReady (retracts d) = Unit {0}
  IsReady shuts = Unit {0}

  abbrev pub AreReady : List (Move E) → Type 0
  AreReady [] = Unit {0}
  AreReady (m ∷ ms) = IsReady m × AreReady ms

  take_slot-IsFormed : (o : Option ℕ) (s : Chan E) → IsFormed s → IsFormed (take_slot o s)
  unfolding take_slot
  take_slot-IsFormed none s h = h
  take_slot-IsFormed (some a) s h = untouched-IsFormed s _ refl refl refl refl h

  give_back-IsFormed : (o : Option E.Value) (s : Chan E) → IsFormed s → IsFormed (give_back o s)
  unfolding give_back
  give_back-IsFormed none s h = h
  give_back-IsFormed (some v) s h = untouched-IsFormed s _ refl refl refl refl h

  poll_offers-IsFormed :
      (r : Receiving) (w : ℕ) (s : Chan E) → IsFormed s → IsFormed (poll_offers r w s).0
  unfolding poll_offers
  poll_offers-IsFormed r w s h = elim (Option-cases (take_offer r.select s).1) [
    | inr (v, e) ↦
        rw (e, poll_offers) (forget-IsFormed r.waiter _ (take_offer-IsFormed r.select s h))
    | inl e ↦ elim (Bool-cases s.closed) [
      | inl c ↦ rw (e, poll_offers) (simp c (forget-IsFormed r.waiter s h))
      | inr c ↦ rw (e, poll_offers) (simp c (wait-IsFormed r w s h))
    ]
  ]

  receive-IsFormed :
      (r : Receiving) (w : ℕ) (s : Chan E) → IsFormed s → IsFormed (Receive.poll_rendezvous r w s).0
  unfolding Receive.poll_rendezvous set_core
  receive-IsFormed r w s h = elim (Option-cases (slot_of s r.waiter)) [
    | inr (v, e) ↦
        rw (e, Receive.poll_rendezvous)
          (forget-IsFormed r.waiter _ (take_slot-IsFormed r.waiter s h))
    | inl e ↦ by_front s.buf refl e
  ]
    where
      by_front :
          (vs : List E.Value)
          → s.buf ≡ vs
          → slot_of s r.waiter ≡ none
          → IsFormed (Receive.poll_rendezvous r w s).0
      by_front [] b e = rw (e, Receive.poll_rendezvous) (simp b (poll_offers-IsFormed r w s h))
      by_front (v ∷ vs) b e =
          rw (e, Receive.poll_rendezvous)
            (simp b (forget-IsFormed r.waiter _ (untouched-IsFormed s _ refl refl refl refl h)))

  poll_offer-IsFormed :
      (a : ℕ) (d : Sending E) (w : ℕ) (s : Chan E) → IsFormed s → IsFormed (poll_offer a d w s).0
  unfolding poll_offer
  poll_offer-IsFormed a d w s h = record {
    offers_once = λ b. ground (arith, h.offers_once b);
    offers_used = λ b l. ground (arith, h.offers_used b);
    offers_open = λ b c. ground (arith, h.offers_open b);
    offers_full = λ b c. ground (arith, h.offers_full b);
    waiters_once = λ b. ground (arith, h.waiters_once b);
    waiters_used = λ b l. ground (arith, h.waiters_used b);
  }

  poll_eager-IsFormed : (d : Sending E) (s : Chan E) → IsFormed s → IsFormed (poll_eager d s).0
  unfolding poll_eager
  poll_eager-IsFormed d s h = elim (Option-cases d.value) [
    | inl e ↦ rw (e, poll_eager) h
    | inr (v, e) ↦ elim (Bool-cases (fill_waiter v d.select s).1) [
      | inl c ↦ rw (e, poll_eager) (simp c (fill_waiter-IsFormed v d.select s h))
      | inr c ↦ rw (e, poll_eager) (simp c h)
    ]
  ]

  posted :
      (d : Sending E) (w : ℕ) (s : Chan E)
      → d.offer ≡ none
      → s.closed ≡ false
      → d.eager ≡ false
      → (Send.poll_rendezvous d w s).0 ≡ (post_offer d w s).0
  unfolding Send.poll_rendezvous
  posted d w s e c q = ground arith

  send-IsFormed :
      (d : Sending E) (w : ℕ) (s : Chan E)
      → (d.offer ≡ none → is_some d.value ≡ true)
      → IsFormed s
      → IsFormed (Send.poll_rendezvous d w s).0
  unfolding Send.poll_rendezvous
  send-IsFormed d w s f h = elim (Option-cases d.offer) [
    | inr (a, e) ↦ rw (e, Send.poll_rendezvous) (poll_offer-IsFormed a d w s h)
    | inl e ↦ elim (Bool-cases s.closed) [
      | inl c ↦ rw (e, Send.poll_rendezvous) (simp c h)
      | inr c ↦ elim (Bool-cases d.eager) [
        | inl q ↦ rw (e, Send.poll_rendezvous) (simp (c, q) (poll_eager-IsFormed d s h))
        | inr q ↦ subst IsFormed (sym (posted d w s e c q)) (post_offer-IsFormed d w s (f e) h)
      ]
    ]
  ]

  withdraw_offer-IsFormed :
      (o : Option ℕ) (s : Chan E) → IsFormed s → IsFormed (withdraw_offer o s).0
  unfolding withdraw_offer
  withdraw_offer-IsFormed none s h = h
  withdraw_offer-IsFormed (some a) s h = elim (Bool-cases (is_offered (s.offer_at a).state)) [
    | inl e ↦ rw (e, withdraw_offer) (retract-IsFormed a s h)
    | inr e ↦ rw (e, withdraw_offer) h
  ]

  drop_reservation-IsFormed :
      (o : Option E.Ticket) (s : Chan E) → IsFormed s → IsFormed (drop_reservation o s)
  unfolding drop_reservation
  drop_reservation-IsFormed none s h = h
  drop_reservation-IsFormed (some k) s h = elim (Option-cases s.sink) [
    | inl e ↦ rw (e, drop_reservation) h
    | inr (t, e) ↦ rw (e, drop_reservation) (untouched-IsFormed s _ refl refl refl refl h)
  ]

  leave_sink-IsFormed : (o : Option ℕ) (s : Chan E) → IsFormed s → IsFormed (leave_sink o s)
  unfolding leave_sink
  leave_sink-IsFormed none s h = h
  leave_sink-IsFormed (some a) s h = untouched-IsFormed s _ refl refl refl refl h

  act-IsFormed : (m : Move E) (s : Chan E) → IsReady m → IsFormed s → IsFormed (act m s)
  unfolding act Receive.withdraw Send.withdraw
  act-IsFormed (receives r w) s f h = receive-IsFormed r w s h
  act-IsFormed (leaves r) s f h =
      give_back-IsFormed _ _ (take_slot-IsFormed r.waiter _ (forget-IsFormed r.waiter s h))
  act-IsFormed (sends d w) s f h = send-IsFormed d w s f h
  act-IsFormed (retracts d) s f h =
      withdraw_offer-IsFormed d.offer _
        (leave_sink-IsFormed d.sink_wait _ (drop_reservation-IsFormed d.reserve s h))
  act-IsFormed shuts s f h = close-IsFormed s h

  -- Whatever receives and sends of any tasks are polled or dropped on a rendezvous channel, and
  -- whenever it is closed, its queues stay well formed, as long as each polled send without an offer
  -- has its value: an offer in the queue stands there once, is open and holds a value, and a waiter
  -- stands there once.
  pub act_all-IsFormed :
      (ms : List (Move E)) (s : Chan E) → AreReady ms → IsFormed s → IsFormed (act_all ms s)
  unfolding act_all
  act_all-IsFormed [] s f h = h
  act_all-IsFormed (m ∷ ms) s f h = act_all-IsFormed ms (act m s) f.1 (act-IsFormed m s f.0 h)
