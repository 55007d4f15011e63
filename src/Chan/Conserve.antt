-- ===== src/Chan/Conserve.antt =====
-- src/chan.rs: the values that a receive on a rendezvous channel takes, and one that is dropped.
use mlua_isle.Base.{
  ℕ, ◌+◌, ◌≡◌, refl, ap, ◌∙◌, List, [], ◌∷◌, Option, none, some, count, arith, update, Bool-cases,
  Option-cases, inl, inr,
}
use mlua_isle.Tokio.{Env}
use mlua_isle.Chan.{Chan, Waiter, take_offer, set_core}
use mlua_isle.Chan.Receive.{
  Receiving, slot_of, take_slot, empty_slot, forget, wait, poll_offers, poll_rendezvous, withdraw,
  give_back, set_waiter_waker,
}
use mlua_isle.Chan.Trace.{received}
use mlua_isle.Chan.Totals.{total-append, total_off, total_on, total_ext, total-remove}
use mlua_isle.Chan.Rendezvous.{
  IsFormed, weigh, weigh_opt, weigh_list, weigh_slots, weigh_offers, weigh-take_offer,
}

module _ {E : Env} where
  -- The waiter of a receive stands in the queue.
  abbrev pub Owns : Option ℕ → Chan E → Type 0
  Owns none s = Unit {0}
  Owns (some a) s = count a s.waiters ≡ 1

  weigh-forget :
      (f : E.Value → ℕ) (o : Option ℕ) (s : Chan E)
      → Owns o s
      → weigh f (forget o s) + weigh_opt f (slot_of s o) ≡ weigh f s
  unfolding forget slot_of
  weigh-forget f none s h = omega arith
  weigh-forget f (some a) s h =
      omega (arith, total-remove (λ b. weigh_opt f (s.waiter_at b).slot) a s.waiters h)

  -- The slot is emptied and the waiter removed: its value, if any, is what the channel lost.
  weigh-take_slot :
      (f : E.Value → ℕ) (o : Option ℕ) (s : Chan E)
      → Owns o s
      → weigh f (forget o (take_slot o s)) + weigh_opt f (slot_of s o) ≡ weigh f s
  unfolding forget slot_of take_slot
  weigh-take_slot f none s h = omega arith
  weigh-take_slot f (some a) s h =
      let g = λ (b : ℕ). weigh_opt f (s.waiter_at b).slot in
      let g' = λ (b : ℕ). weigh_opt f ((empty_slot a s).waiter_at b).slot in
      let gone = total-remove g' a s.waiters h in
      let same = total_on g g' a s.waiters (λ b q. ground arith) h in omega (arith, gone, same)

  weigh-wait :
      (f : E.Value → ℕ) (r : Receiving) (w : ℕ) (s : Chan E)
      → IsFormed s
      → weigh f (wait r w s).0 ≡ weigh f s
  unfolding wait
  weigh-wait f r w s h = elim (Option-cases r.waiter) [
    | inl e ↦
        let new : Waiter E = record { slot = none; waker = w; select = r.select } in
        let g = λ (b : ℕ). weigh_opt f (s.waiter_at b).slot in
        let g' = λ (b : ℕ). weigh_opt f (update s.waiter_at s.next new b).slot in
        let same =
          total_off g g' s.next s.waiters (λ b q. ground arith)
            (h.waiters_used s.next (omega arith)) in
        let more = total-append g' s.waiters (s.next ∷ []) in
        let empty : g' s.next ≡ 0 = ground arith in rw (e, wait) (omega (arith, same, more, empty))
    | inr (a, e) ↦
        let g = λ (b : ℕ). weigh_opt f (s.waiter_at b).slot in
        let g' = λ (b : ℕ). weigh_opt f ((set_waiter_waker a w s).waiter_at b).slot in
        let same = total_ext g g' s.waiters (λ b. ground arith) in
        rw (e, wait) (omega (arith, same))
  ]

  take_offer-waiters :
      (me : Option ℕ) (s : Chan E)
      → let t = (take_offer me s).0 in
        (t.waiters ≡ s.waiters) × (t.waiter_at ≡ s.waiter_at) × (t.buf ≡ s.buf)
  unfolding take_offer
  take_offer-waiters me s = ground arith

  take_offer-Owns :
      (me : Option ℕ) (o : Option ℕ) (s : Chan E) → Owns o s → Owns o (take_offer me s).0
  take_offer-Owns me none s h = tt
  take_offer-Owns me (some a) s h = ground (arith, take_offer-waiters me s)

  take_offer-slot_of :
      (me : Option ℕ) (o : Option ℕ) (s : Chan E) → slot_of (take_offer me s).0 o ≡ slot_of s o
  unfolding slot_of
  take_offer-slot_of me none s = refl
  take_offer-slot_of me (some a) s = ground (arith, take_offer-waiters me s)

  weigh-poll_offers :
      (f : E.Value → ℕ) (r : Receiving) (w : ℕ) (s : Chan E)
      → IsFormed s
      → Owns r.waiter s
      → slot_of s r.waiter ≡ none
      → let (t, r', out) = poll_offers r w s in weigh f t + weigh_list f (received out) ≡ weigh f s
  unfolding poll_offers
  weigh-poll_offers f r w s h o e = elim (Option-cases (take_offer r.select s).1) [
    | inl n ↦ elim (Bool-cases s.closed) [
      | inl c ↦
          rw (n, poll_offers)
            (simp c (omega (arith, ap (weigh_opt f) e, weigh-forget f r.waiter s o)))
      | inr c ↦ rw (n, poll_offers) (simp c (omega (arith, weigh-wait f r w s h)))
    ]
    | inr (v, n) ↦
        let t = (take_offer r.select s).0 in
        let got = weigh-take_offer f r.select s h in
        let gone = weigh-forget f r.waiter t (take_offer-Owns r.select r.waiter s o) in
        let clear = ap (weigh_opt f) (take_offer-slot_of r.select r.waiter s ∙ e) in
        let value = ap (weigh_opt f) n in
        rw (n, poll_offers) (omega (arith, got, gone, clear, value))
  ]

  weigh-popped :
      (f : E.Value → ℕ) (o : Option ℕ) (vs : List E.Value) (s : Chan E)
      → Owns o s
      → weigh f (forget o (set_core s (record (s.core) { buf = vs }))) + weigh_opt f (slot_of s o)
        ≡ weigh_list f vs + weigh_slots f s + weigh_offers f s
  unfolding slot_of set_core
  weigh-popped f none vs s h = weigh-forget f none (set_core s (record (s.core) { buf = vs })) h
  weigh-popped f (some a) vs s h =
      weigh-forget f (some a) (set_core s (record (s.core) { buf = vs })) h

  -- On a rendezvous channel whose queues are well formed, a poll of a receive whose waiter, if any,
  -- stands in the queue hands on what the channel loses: for every weight of values, what the
  -- channel holds afterwards and what was received make up what it held.
  pub weigh-receive_rendezvous :
      (f : E.Value → ℕ) (r : Receiving) (w : ℕ) (s : Chan E)
      → IsFormed s
      → Owns r.waiter s
      → let (t, r', out) = poll_rendezvous r w s in
        weigh f t + weigh_list f (received out) ≡ weigh f s
  unfolding poll_rendezvous
  weigh-receive_rendezvous f r w s h o = elim (Option-cases (slot_of s r.waiter)) [
    | inr (v, e) ↦
        rw (e, poll_rendezvous) (omega (arith, ap (weigh_opt f) e, weigh-take_slot f r.waiter s o))
    | inl e ↦ by_front s.buf refl e
  ]
    where
      by_front :
          (vs : List E.Value)
          → s.buf ≡ vs
          → slot_of s r.waiter ≡ none
          → let (t, r', out) = poll_rendezvous r w s in
            weigh f t + weigh_list f (received out) ≡ weigh f s
      by_front [] b e =
          rw (e, poll_rendezvous)
            (simp b (omega (arith, ap (weigh_list f) b, weigh-poll_offers f r w s h o e)))
      by_front (v ∷ vs) b e =
          rw (e, poll_rendezvous)
            (simp b (
              omega
                (arith, ap (weigh_list f) b, ap (weigh_opt f) e, weigh-popped f r.waiter vs s o)))

  weigh-give_back :
      (f : E.Value → ℕ) (o : Option E.Value) (s : Chan E)
      → weigh f (give_back o s) ≡ weigh f s + weigh_opt f o
  unfolding give_back
  weigh-give_back f none s = omega arith
  weigh-give_back f (some v) s = omega arith

  forget-take_slot :
      (o : Option ℕ) (s : Chan E) → take_slot o (forget o s) ≡ forget o (take_slot o s)
  unfolding take_slot forget
  forget-take_slot none s = refl
  forget-take_slot (some a) s = refl

  -- A receive whose waiter, if any, stands in the queue of a rendezvous channel loses nothing when
  -- it is dropped: for every weight of values the channel holds what it held, a value left in the
  -- slot included.
  pub weigh-withdraw :
      (f : E.Value → ℕ) (r : Receiving) (s : Chan E)
      → Owns r.waiter s
      → weigh f (withdraw r s).0 ≡ weigh f s
  unfolding withdraw
  weigh-withdraw f r s o =
      let given = weigh-give_back f (slot_of s r.waiter) (take_slot r.waiter (forget r.waiter s)) in
      let moved = ap (weigh f) (forget-take_slot r.waiter s) in
      omega (arith, given, moved, weigh-take_slot f r.waiter s o)
