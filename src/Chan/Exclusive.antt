-- ===== src/Chan/Exclusive.antt =====
-- src/chan.rs: which offer a receiver takes, and what a taken offer means for its select.
use mlua_isle.Base.{
  ℕ, ◌≡◌, ◌⊎◌, Bool, true, false, List, [], ◌∷◌, Option, some, arith, Bool-cases, Option-cases, inl,
  inr, ready, ok,
}
use mlua_isle.Tokio.{Env}
use mlua_isle.Chan.{Chan, Heap, find, may_take, may_fill, take_offer, get_or}
use mlua_isle.Chan.Send.{Sending, delivered, poll_rendezvous}

-- `a` is the first of a list that passes a test.
abbrev pub IsFirst : (ℕ → Bool) → ℕ → List ℕ → Type 0
IsFirst p a [] = ⊥
IsFirst p a (x ∷ xs) = ((x ≡ a) × (p x ≡ true)) ⊎ ((p x ≡ false) × IsFirst p a xs)

find-IsFirst : (p : ℕ → Bool) (xs : List ℕ) (a : ℕ) → find p xs ≡ some a → IsFirst p a xs
find-IsFirst p [] a e = cc
find-IsFirst p (x ∷ xs) a e = elim (Bool-cases (p x)) [
  | inl q ↦ inl (ground arith, q)
  | inr q ↦ inr (q, find-IsFirst p xs a (ground arith))
]

module _ {E : Env} where
  -- Nobody takes an offer, or fills a waiter, of a select that has its case.
  pub claimed_passed_over :
      (h : Heap E) (me : Option ℕ) (m a : ℕ)
      → h.claimed_at m ≡ true
      → ((h.offer_at a).select ≡ some m → may_take h me a ≡ false)
        × ((h.waiter_at a).select ≡ some m → may_fill h me a ≡ false)
  unfolding may_take may_fill
  claimed_passed_over h me m a c = ground arith

  -- A receive that takes a value takes that of the first offer in the queue that is open, of
  -- another select than its own, and of a select that has no case yet. In the state that it leaves,
  -- the send of that offer is delivered and its poll answers as sent, and no offer or waiter of the
  -- same select may be taken or filled.
  pub take_offer-IsFirst :
      (me : Option ℕ) (s : Chan E) (v : E.Value)
      → (take_offer me s).1 ≡ some v
      → let t = (take_offer me s).0 in
        (a : ℕ) × IsFirst (may_take s.heap me) a s.offers
        × (get_or (s.offer_at a).value E.nil ≡ v)
        × ((d : Sending E) (w : ℕ)
            → d.offer ≡ some a
            → (delivered d t ≡ true) × ((poll_rendezvous d w t).2 ≡ ready (ok tt)))
        × ((me' : Option ℕ) (m b : ℕ)
            → (s.offer_at a).select ≡ some m
            → ((t.offer_at b).select ≡ some m → may_take t.heap me' b ≡ false)
              × ((t.waiter_at b).select ≡ some m → may_fill t.heap me' b ≡ false))
  unfolding take_offer delivered poll_rendezvous
  take_offer-IsFirst me s v e = elim (Option-cases (find (may_take s.heap me) s.offers)) [
    | inl q ↦ absurd (ground arith)
    | inr (a, q) ↦ (
      a,
      find-IsFirst (may_take s.heap me) s.offers a q,
      ground arith,
      λ d w o. ground arith,
      λ me' m b o. claimed_passed_over (take_offer me s).0.heap me' m b (ground arith),
    )
  ]
