-- ===== src/Chan/Rendezvous.antt =====
-- src/chan.rs: the offers and waiters of a rendezvous channel, and the values that they hold.
use mlua_isle.Base.{
  ℕ, ◌+◌, ◌≡◌, ◌≤◌, ◌<◌, true, List, [], ◌∷◌, Option, none, some, is_some, count, arith,
  if◌then◌else◌, update, Option-cases, inl, inr,
}
use mlua_isle.Tokio.{Env}
use mlua_isle.Chan.{
  Chan, offered, find, remove_first, may_take, may_fill, take_offer, fill_waiter, mark_taken,
  get_or,
}
use mlua_isle.Chan.Totals.{
  total, total_off, total_on, find_lem, total-remove_first, count-remove_first,
}

-- The weight of the values of an option and of a list.
abbrev pub weigh_opt : {V : Type 0} → (V → ℕ) → Option V → ℕ
weigh_opt f none = 0
weigh_opt f (some v) = f v

abbrev pub weigh_list : {V : Type 0} → (V → ℕ) → List V → ℕ
weigh_list f [] = 0
weigh_list f (v ∷ vs) = f v + weigh_list f vs

module _ {E : Env} where
  -- The queued offers are open, distinct and hold a value; the waiters are distinct.
  pub record IsFormed (s : Chan E) : Type 0 where
    pub offers_once : (a : ℕ) → count a s.offers ≤ 1
    pub offers_used : (a : ℕ) → s.next ≤ a → count a s.offers ≡ 0
    pub offers_open : (a : ℕ) → 0 < count a s.offers → (s.offer_at a).state ≡ offered
    pub offers_full : (a : ℕ) → 0 < count a s.offers → is_some (s.offer_at a).value ≡ true
    pub waiters_once : (a : ℕ) → count a s.waiters ≤ 1
    pub waiters_used : (a : ℕ) → s.next ≤ a → count a s.waiters ≡ 0

  -- The values that a channel holds, measured by any weight of values: those given back to the
  -- front, those in the slots of waiters and those that queued offers hold.
  abbrev pub weigh_slots : (E.Value → ℕ) → Chan E → ℕ
  weigh_slots f s = total (λ a. weigh_opt f (s.waiter_at a).slot) s.waiters

  abbrev pub weigh_offers : (E.Value → ℕ) → Chan E → ℕ
  weigh_offers f s = total (λ a. weigh_opt f (s.offer_at a).value) s.offers

  abbrev pub weigh : (E.Value → ℕ) → Chan E → ℕ
  weigh f s = weigh_list f s.buf + weigh_slots f s + weigh_offers f s

  -- `take_offer` hands on exactly the value of one offer.
  pub weigh-take_offer :
      (f : E.Value → ℕ) (me : Option ℕ) (s : Chan E)
      → IsFormed s
      → weigh f (take_offer me s).0 + weigh_opt f (take_offer me s).1 ≡ weigh f s
  unfolding take_offer
  weigh-take_offer f me s h = elim (Option-cases (find (may_take s.heap me) s.offers)) [
    | inl e ↦ rw (e, take_offer) (omega arith)
    | inr (a, e) ↦
        let p = may_take s.heap me in
        let (t, c) = find_lem p s.offers a e in
        let full = h.offers_full a c in
        let once = h.offers_once a in
        let left = count-remove_first a p s.offers a e in
        let g = λ (b : ℕ). weigh_opt f (s.offer_at b).value in
        let g' = λ (b : ℕ). weigh_opt f ((mark_taken a s.heap).offer_at b).value in
        let split = total-remove_first g p s.offers a e in
        let same =
          total_off g g' a (remove_first p s.offers) (λ b q. ground arith) (ground arith) in
        let worth : f (get_or (s.offer_at a).value E.nil) ≡ g a = ground (arith, full) in
        rw (e, take_offer) (omega (arith, split, same, worth))
  ]

  -- `fill_waiter` puts the value in exactly one slot, or leaves the channel as it is.
  pub weigh-fill_waiter :
      (f : E.Value → ℕ) (v : E.Value) (me : Option ℕ) (s : Chan E)
      → IsFormed s
      → let (t, filled) = fill_waiter v me s in weigh f t ≡ weigh f s + (if filled then f v else 0)
  unfolding fill_waiter
  weigh-fill_waiter f v me s h = elim (Option-cases (find (may_fill s.heap me) s.waiters)) [
    | inl e ↦ rw (e, fill_waiter) (omega arith)
    | inr (a, e) ↦
        let (t, c) = find_lem (may_fill s.heap me) s.waiters a e in
        let once = h.waiters_once a in
        let g = λ (b : ℕ). weigh_opt f (s.waiter_at b).slot in
        let filled = record (s.waiter_at a) { slot = some v } in
        let g' = λ (b : ℕ). weigh_opt f (update s.waiter_at a filled b).slot in
        let same = total_on g g' a s.waiters (λ b q. ground arith) (omega arith) in
        let new : g' a ≡ f v = ground arith in
        let old : g a ≡ 0 = ground (arith, t) in rw (e, fill_waiter) (omega (arith, same, new, old))
  ]
