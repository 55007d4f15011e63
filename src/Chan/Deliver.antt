-- ===== src/Chan/Deliver.antt =====
-- src/chan.rs: the value of a send on a rendezvous channel.
use mlua_isle.Base.{
  ℕ, ◌+◌, ◌≡◌, refl, ap, Bool, true, false, [], ◌∷◌, some, count, arith, if◌then◌else◌, update,
  Bool-cases, Option-cases, inl, inr,
}
use mlua_isle.Tokio.{Env}
use mlua_isle.Chan.{Chan, Offer, OfferState, offered, taken, withdrawn, remove, fill_waiter}
use mlua_isle.Chan.Send.{Sending, poll_rendezvous, poll_offer, post_offer, poll_eager, retract}
use mlua_isle.Chan.Totals.{total-append, total_off, total_ext, total-remove}
use mlua_isle.Chan.Rendezvous.{IsFormed, weigh, weigh_opt, weigh-fill_waiter}

module _ {E : Env} where
  -- The value of a send is with the send or with its offer.
  weigh-post_offer :
      (f : E.Value → ℕ) (d : Sending E) (w : ℕ) (s : Chan E)
      → IsFormed s
      → weigh f (post_offer d w s).0 ≡ weigh f s + weigh_opt f d.value
  unfolding post_offer
  weigh-post_offer f d w s h =
      let new : Offer E = record {
        value = d.value;
        state = offered;
        waker = w;
        select = d.select;
      } in
      let g = λ (b : ℕ). weigh_opt f (s.offer_at b).value in
      let g' = λ (b : ℕ). weigh_opt f (update s.offer_at s.next new b).value in
      let unused = h.offers_used s.next (omega arith) in
      let same = total_off g g' s.next s.offers (λ b q. ground arith) unused in
      let more = total-append g' s.offers (s.next ∷ []) in
      let posted : g' s.next ≡ weigh_opt f d.value = ground arith in
      omega (arith, same, more, posted)

  weigh-poll_offer :
      (f : E.Value → ℕ) (a : ℕ) (d : Sending E) (w : ℕ) (s : Chan E)
      → let (t, d', out) = poll_offer a d w s in
        weigh f t + weigh_opt f d'.value ≡ weigh f s + weigh_opt f d.value
  unfolding poll_offer
  weigh-poll_offer f a d w s = by_state (s.offer_at a).state refl
    where
      by_state :
          (x : OfferState)
          → (s.offer_at a).state ≡ x
          → let (t, d', out) = poll_offer a d w s in
            weigh f t + weigh_opt f d'.value ≡ weigh f s + weigh_opt f d.value
      by_state offered e =
          let g = λ (b : ℕ). weigh_opt f (s.offer_at b).value in
          let new = record (s.offer_at a) { waker = w } in
          let g' = λ (b : ℕ). weigh_opt f (update s.offer_at a new b).value in
          let same = total_ext g g' s.offers (λ b. ground arith) in
          rw (e, poll_offer) (omega (arith, same))
      by_state taken e = rw (e, poll_offer) (omega arith)
      by_state withdrawn e = rw (e, poll_offer) (omega arith)

  weigh-poll_eager :
      (f : E.Value → ℕ) (d : Sending E) (s : Chan E)
      → IsFormed s
      → let (t, d', out) = poll_eager d s in
        weigh f t + weigh_opt f d'.value ≡ weigh f s + weigh_opt f d.value
  unfolding poll_eager
  weigh-poll_eager f d s h = elim (Option-cases d.value) [
    | inl e ↦ rw (e, poll_eager) (omega (arith, ap (weigh_opt f) e))
    | inr (v, e) ↦ by_filled v e (fill_waiter v d.select s).1 refl
  ]
    where
      by_filled :
          (v : E.Value)
          → d.value ≡ some v
          → (b : Bool) → (fill_waiter v d.select s).1 ≡ b
          → let (t, d', out) = poll_eager d s in
            weigh f t + weigh_opt f d'.value ≡ weigh f s + weigh_opt f d.value
      by_filled v e true q =
          let put = weigh-fill_waiter f v d.select s h in
          let worth : (if (fill_waiter v d.select s).1 then f v else 0) ≡ f v = ground (arith, q) in
          rw (e, poll_eager) (simp q (omega (arith, put, worth, ap (weigh_opt f) e)))
      by_filled v e false q = rw (e, poll_eager) (simp q (omega (arith, ap (weigh_opt f) e)))

  -- On a rendezvous channel whose queues are well formed, a poll of a send moves the value to the
  -- channel or leaves it with the send: for every weight of values, what both hold stays the same.
  pub weigh-send_rendezvous :
      (f : E.Value → ℕ) (d : Sending E) (w : ℕ) (s : Chan E)
      → IsFormed s
      → let (t, d', out) = poll_rendezvous d w s in
        weigh f t + weigh_opt f d'.value ≡ weigh f s + weigh_opt f d.value
  unfolding poll_rendezvous
  weigh-send_rendezvous f d w s h = elim (Option-cases d.offer) [
    | inr (a, e) ↦ rw (e, poll_rendezvous) (weigh-poll_offer f a d w s)
    | inl e ↦ elim (Bool-cases s.closed) [
      | inl c ↦ rw (e, poll_rendezvous) (simp c (omega arith))
      | inr c ↦ elim (Bool-cases d.eager) [
        | inl q ↦ rw (e, poll_rendezvous) (simp (c, q) (weigh-poll_eager f d s h))
        | inr q ↦ rw (e, poll_rendezvous) (simp (c, q) (omega (arith, weigh-post_offer f d w s h)))
      ]
    ]
  ]

  weigh-retract :
      (f : E.Value → ℕ) (a : ℕ) (s : Chan E)
      → count a s.offers ≡ 1
      → weigh f (retract a s) + weigh_opt f (s.offer_at a).value ≡ weigh f s
  unfolding retract
  weigh-retract f a s c =
      let g = λ (b : ℕ). weigh_opt f (s.offer_at b).value in
      let new = record (s.offer_at a) { state = withdrawn } in
      let g' = λ (b : ℕ). weigh_opt f (update s.offer_at a new b).value in
      let same = total_ext g g' (remove a s.offers) (λ b. ground arith) in
      omega (arith, same, total-remove g a s.offers c)
