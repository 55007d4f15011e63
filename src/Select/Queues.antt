-- ===== src/Select/Queues.antt =====
-- src/chan.rs: the queues of a channel that a receive or a send leaves when it is withdrawn.
use mlua_isle.Base.{ℕ, ◌≡◌, ◌≤◌, false, Option, none, some, arith, count}
use mlua_isle.Tokio.{Env}
use mlua_isle.Chan.{Chan, is_offered}
use mlua_isle.Chan.Totals.{count-remove}
use mlua_isle.Chan.Receive.{Receiving, slot_of, take_slot, forget, give_back}
use mlua_isle.Chan.Receive
use mlua_isle.Chan.Send.{Sending, drop_reservation, leave_sink, withdraw_offer, retract}
use mlua_isle.Chan.Send

module _ {E : Env} where
  -- From `s` to `t` no queue gained an entry, and no offer was opened.
  pub record IsLess (s t : Chan E) : Type 0 where
    pub waiters : (a : ℕ) → count a t.waiters ≤ count a s.waiters
    pub sinks : (a : ℕ) → count a t.sink_waiters ≤ count a s.sink_waiters
    pub closed_offers :
        (a : ℕ) → is_offered (s.offer_at a).state ≡ false → is_offered (t.offer_at a).state ≡ false

  IsLess-refl : (s : Chan E) → IsLess s s
  IsLess-refl s = record {
    waiters = λ a. omega arith;
    sinks = λ a. omega arith;
    closed_offers = λ a c. c;
  }

  IsLess-trans : (s t u : Chan E) → IsLess s t → IsLess t u → IsLess s u
  IsLess-trans s t u p q = record {
    waiters = λ a. omega (arith, p.waiters a, q.waiters a);
    sinks = λ a. omega (arith, p.sinks a, q.sinks a);
    closed_offers = λ a c. q.closed_offers a (p.closed_offers a c);
  }

  forget-IsLess :
      (o : Option ℕ) (s : Chan E)
      → IsLess s (forget o s) × ((a : ℕ) → o ≡ some a → count a (forget o s).waiters ≡ 0)
  unfolding forget
  forget-IsLess none s = (IsLess-refl s, λ a e. cc)
  forget-IsLess (some b) s = (
    record {
      waiters = λ a. ground (arith, count-remove a b s.waiters);
      sinks = λ a. omega arith;
      closed_offers = λ a c. c;
    },
    λ a e. ground (arith, e, count-remove a b s.waiters),
  )

  take_slot-IsLess : (o : Option ℕ) (s : Chan E) → IsLess s (take_slot o s)
  unfolding take_slot
  take_slot-IsLess none s = IsLess-refl s
  take_slot-IsLess (some b) s = record {
    waiters = λ a. omega arith;
    sinks = λ a. omega arith;
    closed_offers = λ a c. c;
  }

  give_back-IsLess : (v : Option E.Value) (s : Chan E) → IsLess s (give_back v s)
  unfolding give_back
  give_back-IsLess none s = IsLess-refl s
  give_back-IsLess (some v) s = record {
    waiters = λ a. omega arith;
    sinks = λ a. omega arith;
    closed_offers = λ a c. c;
  }

  pub receive_left :
      (r : Receiving) (s : Chan E)
      → IsLess s (Receive.withdraw r s).0
        × ((a : ℕ) → r.waiter ≡ some a → count a (Receive.withdraw r s).0.waiters ≡ 0)
  unfolding Receive.withdraw
  receive_left r s =
      let t = forget r.waiter s in
      let u = take_slot r.waiter t in
      let end = (Receive.withdraw r s).0 in
      let (p, q) = forget-IsLess r.waiter s in
      let m = take_slot-IsLess r.waiter t in
      let n = give_back-IsLess (slot_of s r.waiter) u in
      let k : IsLess t end = IsLess-trans t u end m n in
      (IsLess-trans s t end p k, λ a e. omega (arith, q a e, k.waiters a))

  drop_reservation-IsLess : (o : Option E.Ticket) (s : Chan E) → IsLess s (drop_reservation o s)
  unfolding drop_reservation
  drop_reservation-IsLess none s = IsLess-refl s
  drop_reservation-IsLess (some k) s = record {
    waiters = λ a. ground arith;
    sinks = λ a. ground arith;
    closed_offers = λ a c. ground (arith, c);
  }

  leave_sink-IsLess :
      (o : Option ℕ) (s : Chan E)
      → IsLess s (leave_sink o s)
        × ((a : ℕ) → o ≡ some a → count a (leave_sink o s).sink_waiters ≡ 0)
  unfolding leave_sink
  leave_sink-IsLess none s = (IsLess-refl s, λ a e. cc)
  leave_sink-IsLess (some b) s = (
    record {
      waiters = λ a. omega arith;
      sinks = λ a. ground (arith, count-remove a b s.sink_waiters);
      closed_offers = λ a c. c;
    },
    λ a e. ground (arith, e, count-remove a b s.sink_waiters),
  )

  withdraw_offer-IsLess :
      (o : Option ℕ) (s : Chan E)
      → IsLess s (withdraw_offer o s).0
        × ((a : ℕ) → o ≡ some a → is_offered ((withdraw_offer o s).0.offer_at a).state ≡ false)
  unfolding withdraw_offer
  withdraw_offer-IsLess none s = (IsLess-refl s, λ a e. cc)
  withdraw_offer-IsLess (some b) s = (
    record {
      waiters = λ a. ground arith;
      sinks = λ a. ground arith;
      closed_offers = λ a c. ground (arith, c);
    },
    λ a e. ground (arith, e),
  )

  pub send_left :
      (d : Sending E) (s : Chan E)
      → let t = (Send.withdraw d s).0 in
        IsLess s t
        × ((a : ℕ) → d.offer ≡ some a → is_offered (t.offer_at a).state ≡ false)
        × ((a : ℕ) → d.sink_wait ≡ some a → count a t.sink_waiters ≡ 0)
  unfolding Send.withdraw
  send_left d s =
      let t = drop_reservation d.reserve s in
      let u = leave_sink d.sink_wait t in
      let end = (Send.withdraw d s).0 in
      let p = drop_reservation-IsLess d.reserve s in
      let (q, x) = leave_sink-IsLess d.sink_wait t in
      let (r, y) = withdraw_offer-IsLess d.offer u in
      (IsLess-trans s u end (IsLess-trans s t u p q) r, y, λ a e. omega (arith, x a e, r.sinks a))
