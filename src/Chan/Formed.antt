-- ===== src/Chan/Formed.antt =====
-- src/chan.rs: the operations on the offers and waiters of a rendezvous channel.
use mlua_isle.Base.{
  ℕ, ◌≡◌, refl, true, [], ◌∷◌, Option, none, some, is_some, count-append, arith, Bool-cases,
  Option-cases, inl, inr,
}
use mlua_isle.Tokio.{Env}
use mlua_isle.Chan.{Chan, find, may_take, may_fill, take_offer, fill_waiter}
use mlua_isle.Chan.Ops.{close}
use mlua_isle.Chan.Receive.{Receiving, forget, wait}
use mlua_isle.Chan.Send.{Sending, post_offer, retract}
use mlua_isle.Chan.Totals.{count-remove_first, count-remove}
use mlua_isle.Chan.Rendezvous.{IsFormed}

module _ {E : Env} where
  pub take_offer-IsFormed : (me : Option ℕ) (s : Chan E) → IsFormed s → IsFormed (take_offer me s).0
  unfolding take_offer
  take_offer-IsFormed me s h = elim (Option-cases (find (may_take s.heap me) s.offers)) [
    | inl e ↦ rw (e, take_offer) h
    | inr (a, e) ↦
        let p = may_take s.heap me in
        let left = λ (b : ℕ). count-remove_first b p s.offers a e in
        rw (e, take_offer)
          (record {
            offers_once = λ b. omega (arith, h.offers_once b, left b);
            offers_used = λ b q. omega (arith, h.offers_used b q, left b);
            offers_open = λ b q. ground (arith, h.offers_open b, h.offers_once b, left b);
            offers_full = λ b q. ground (arith, h.offers_full b, h.offers_once b, left b);
            waiters_once = h.waiters_once;
            waiters_used = h.waiters_used;
          })
  ]

  pub fill_waiter-IsFormed :
      (v : E.Value) (me : Option ℕ) (s : Chan E) → IsFormed s → IsFormed (fill_waiter v me s).0
  unfolding fill_waiter
  fill_waiter-IsFormed v me s h = elim (Option-cases (find (may_fill s.heap me) s.waiters)) [
    | inl e ↦ rw (e, fill_waiter) h
    | inr (a, e) ↦
        rw (e, fill_waiter)
          (record {
            offers_once = h.offers_once;
            offers_used = h.offers_used;
            offers_open = h.offers_open;
            offers_full = h.offers_full;
            waiters_once = h.waiters_once;
            waiters_used = h.waiters_used;
          })
  ]

  pub forget-IsFormed : (o : Option ℕ) (s : Chan E) → IsFormed s → IsFormed (forget o s)
  unfolding forget
  forget-IsFormed none s h = h
  forget-IsFormed (some a) s h = record {
    offers_once = h.offers_once;
    offers_used = h.offers_used;
    offers_open = h.offers_open;
    offers_full = h.offers_full;
    waiters_once = λ b. ground (arith, h.waiters_once b, count-remove b a s.waiters);
    waiters_used = λ b q. ground (arith, h.waiters_used b, count-remove b a s.waiters);
  }

  -- An operation that leaves the lists, the offers and the addresses alone.
  pub untouched-IsFormed :
      (s t : Chan E)
      → t.offers ≡ s.offers
      → t.waiters ≡ s.waiters
      → t.offer_at ≡ s.offer_at
      → t.next ≡ s.next
      → IsFormed s
      → IsFormed t
  untouched-IsFormed s t a b c d h = record {
    offers_once = λ x. ground (arith, h.offers_once x);
    offers_used = λ x q. ground (arith, h.offers_used x);
    offers_open = λ x q. ground (arith, h.offers_open x);
    offers_full = λ x q. ground (arith, h.offers_full x);
    waiters_once = λ x. ground (arith, h.waiters_once x);
    waiters_used = λ x q. ground (arith, h.waiters_used x);
  }

  pub wait-IsFormed : (r : Receiving) (w : ℕ) (s : Chan E) → IsFormed s → IsFormed (wait r w s).0
  unfolding wait
  wait-IsFormed r w s h = elim (Option-cases r.waiter) [
    | inr (a, e) ↦ rw (e, wait) (untouched-IsFormed s _ refl refl refl refl h)
    | inl e ↦
        let more = λ (b : ℕ). count-append b s.waiters (s.next ∷ []) in
        rw (e, wait)
          (record {
            offers_once = h.offers_once;
            offers_used = λ b q. h.offers_used b (omega arith);
            offers_open = h.offers_open;
            offers_full = h.offers_full;
            waiters_once = λ b. ground (arith, h.waiters_once b, h.waiters_used b, more b);
            waiters_used = λ b q. ground (arith, h.waiters_used b, more b);
          })
  ]

  pub post_offer-IsFormed :
      (d : Sending E) (w : ℕ) (s : Chan E)
      → is_some d.value ≡ true
      → IsFormed s
      → IsFormed (post_offer d w s).0
  unfolding post_offer
  post_offer-IsFormed d w s f h =
      let more = λ (b : ℕ). count-append b s.offers (s.next ∷ []) in
      record {
        offers_once = λ b. ground (arith, h.offers_once b, h.offers_used b, more b);
        offers_used = λ b q. ground (arith, h.offers_used b, more b);
        offers_open = λ b q. ground (arith, h.offers_open b, more b);
        offers_full = λ b q. ground (arith, h.offers_full b, more b);
        waiters_once = h.waiters_once;
        waiters_used = λ b q. h.waiters_used b (omega arith);
      }

  pub retract-IsFormed : (a : ℕ) (s : Chan E) → IsFormed s → IsFormed (retract a s)
  unfolding retract
  retract-IsFormed a s h =
      let left = λ (b : ℕ). count-remove b a s.offers in
      record {
        offers_once = λ b. ground (arith, h.offers_once b, left b);
        offers_used = λ b q. ground (arith, h.offers_used b, left b);
        offers_open = λ b q. ground (arith, h.offers_open b, left b);
        offers_full = λ b q. ground (arith, h.offers_full b, left b);
        waiters_once = h.waiters_once;
        waiters_used = h.waiters_used;
      }

  pub close-IsFormed : (s : Chan E) → IsFormed s → IsFormed (close s)
  unfolding close
  close-IsFormed s h = elim (Bool-cases s.closed) [
    | inl c ↦ simp c h
    | inr c ↦ simp c (record {
      offers_once = λ b. omega arith;
      offers_used = λ b q. refl;
      offers_open = λ b q. absurd (omega arith);
      offers_full = λ b q. absurd (omega arith);
      waiters_once = h.waiters_once;
      waiters_used = h.waiters_used;
    })
  ]
