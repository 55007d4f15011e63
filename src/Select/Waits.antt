-- ===== src/Select/Waits.antt =====
-- src/select.rs, `wait_send` and `wait_select`: a wait whose token is cancelled.
use mlua_isle.Base.{
  ℕ, suc, ◌+◌, ◌≡◌, ◌≢◌, ◌∙◌, ◌⊎◌, ap, sym, subst, refl, true, false, Option, none, some, arith,
  Bool-cases, Option-cases, inl, inr, ready, ok, err, List, [], ◌∷◌, get_elem?, Poll,
}
use mlua_isle.Tokio.{Env}
use mlua_isle.Chan.{Chan, may_take, taken, offered, withdrawn}
use mlua_isle.Chan.Send.{Sending, drop_reservation, leave_sink, withdraw_offer, retract}
use mlua_isle.Chan.Send
use mlua_isle.Select.{
  World, SelectFuture, take_delivered, wait_send, wait_select, find_delivered, resolve, sent, Arm,
  recv, send, timer, task, focus, delivered, Outcome,
}
use mlua_isle.Select.Rounds.{find_delivered-none}
use mlua_isle.Select.Resolve.{HasChosen, resolve-HasChosen, delivered_found}

module _ {E : Env} where
  withdraw-untakable :
      (me : Option ℕ) (o : Option ℕ) (s : Chan E) (a : ℕ)
      → o ≡ some a
      → may_take (withdraw_offer o s).0.heap me a ≡ false
  unfolding withdraw_offer retract may_take
  withdraw-untakable me none s a e = cc
  withdraw-untakable me (some b) s a e = ground arith

  -- A send that its token cancels in the middle: when a receiver has taken the offer it answers as
  -- sent; else it is the cancel error, and once the send is withdrawn no receiver may take its
  -- offer.
  pub wait_send-exact :
      (d : Sending E) (p : ℕ) (s : Chan E)
      → let out = (wait_send (some true) d p s).2 in
        ((Send.delivered d s ≡ true) × (out ≡ ready (ok (ok tt))))
        ⊎ ((Send.delivered d s ≡ false)
            × (out ≡ ready (err E.cancel_error))
            × ((me : Option ℕ) (a : ℕ)
                → d.offer ≡ some a
                → may_take (Send.withdraw d (wait_send (some true) d p s).0).0.heap me a ≡ false))
  unfolding wait_send Send.withdraw
  wait_send-exact d p s = elim (Bool-cases (Send.delivered d s)) [
    | inl e ↦ inl (e, rw (e, wait_send) refl)
    | inr e ↦ inr (
      e,
      rw (e, wait_send) refl,
      λ me a o.
          withdraw-untakable me d.offer (leave_sink d.sink_wait (drop_reservation d.reserve s)) a o,
    )
  ]

  cancelled_step :
      (f : SelectFuture E) (p : ℕ) (w : World E) (i : ℕ)
      → find_delivered 0 f.arms w ≡ some i
      → wait_select (some true) f p w
        ≡ ((resolve i f w).0, (resolve i f w).1, ready (ok (i, sent true)))
  unfolding wait_select take_delivered
  cancelled_step f p w i e = simp (e, wait_select, take_delivered)

  -- The case is a send whose offer a receiver has taken.
  abbrev pub IsTaken : Arm E → World E → Type 0
  IsTaken b w =
      (c : ℕ) × (d : Sending E) × (a : ℕ) × (b ≡ send c d)
      × (d.offer ≡ some a)
      × ((w.heap.offer_at a).state ≡ taken)

  offer-IsTaken :
      (c : ℕ) (d : Sending E) (w : World E) (o : Option ℕ)
      → d.offer ≡ o
      → Send.delivered d (focus c w) ≡ true
      → IsTaken (send c d) w
  unfolding Send.delivered focus
  offer-IsTaken c d w none e q = absurd (ground (arith, e, q))
  offer-IsTaken c d w (some a) e q =
      elim (w.heap.offer_at a).state
          as (λ x. (w.heap.offer_at a).state ≡ x → IsTaken (send c d) w) [
            | taken ↦ λ t. (c, d, a, refl, e, t)
            | offered ↦ λ t. absurd (ground (arith, e, q, t))
            | withdrawn ↦ λ t. absurd (ground (arith, e, q, t))
          ]
        refl

  delivered-IsTaken : (b : Arm E) (w : World E) → delivered b w ≡ true → IsTaken b w
  unfolding delivered
  delivered-IsTaken (send c d) w q = offer-IsTaken c d w d.offer refl q
  delivered-IsTaken (recv c r) w q = absurd (ground (arith, q))
  delivered-IsTaken (timer t a) w q = absurd (ground (arith, q))
  delivered-IsTaken (task a) w q = absurd (ground (arith, q))

  taken_delivered :
      (c : ℕ) (d : Sending E) (a : ℕ) (w : World E)
      → d.offer ≡ some a
      → (w.heap.offer_at a).state ≡ taken
      → delivered (send c d) w ≡ true
  unfolding delivered Send.delivered focus
  taken_delivered c d a w e t = ground (arith, e, t)

  find_delivered-arm :
      (j : ℕ) (arms : List (Arm E)) (w : World E) (i : ℕ)
      → find_delivered j arms w ≡ some i
      → (k : ℕ) × (b : Arm E) × (i ≡ j + k) × (get_elem? arms k ≡ some b) × (delivered b w ≡ true)
  unfolding find_delivered
  find_delivered-arm j [] w i e = cc
  find_delivered-arm j (b ∷ bs) w i e = elim (Bool-cases (delivered b w)) [
    | inl q ↦ (0, b, ground arith, refl, q)
    | inr q ↦
        let e' : find_delivered (suc j) bs w ≡ some i = ground arith in
        let (k, c, m, g, t) = find_delivered-arm (suc j) bs w i e' in
        (suc k, c, omega (arith, m), g, t)
  ]

  -- What a select whose token is cancelled answers.
  abbrev pub AnswersCancel :
      SelectFuture E → World E → World E × SelectFuture E × Poll (Outcome E) → Type 0
  AnswersCancel f w (w', f', out) =
      ((i : ℕ) × (b : Arm E) × (get_elem? f.arms i ≡ some b)
        × IsTaken b w
        × (out ≡ ready (ok (i, sent true)))
        × HasChosen i f f' w')
      ⊎ (((i c a : ℕ) (d : Sending E)
            → get_elem? f.arms i ≡ some (send c d)
            → d.offer ≡ some a
            → (w.heap.offer_at a).state ≢ taken)
          × (out ≡ ready (err E.cancel_error))
          × (w' ≡ w)
          × (f' ≡ f))

  -- A select that its token cancels: it has a send case whose offer a receiver has taken, answers with
  -- such a case as sent and then has that case; or no offer of its send cases is taken, and it answers
  -- with the cancel error and changes nothing.
  pub wait_select-exact :
      (f : SelectFuture E) (p : ℕ) (w : World E) → AnswersCancel f w (wait_select (some true) f p w)
  unfolding wait_select take_delivered
  wait_select-exact f p w = elim (Option-cases (find_delivered 0 f.arms w)) [
    | inl e ↦ inr (
      λ i c a d g o t. absurd (
          ground
            (arith, taken_delivered c d a w o t, find_delivered-none 0 f.arms w e i (send c d) g)),
      simp (e, wait_select, take_delivered),
      simp (e, wait_select, take_delivered),
      simp (e, wait_select, take_delivered),
    )
    | inr (i, e) ↦
        let (d, m, l) = delivered_found 0 f.arms w i e in
        let (k, b, n, g, t) = find_delivered-arm 0 f.arms w i e in
        let same : i ≡ k = omega (arith, n) in
        let s = cancelled_step f p w i e in
        inl (
          i,
          b,
          ap (get_elem? f.arms) same ∙ g,
          delivered-IsTaken b w t,
          ap (λ x. x.2) s,
          subst (λ x. HasChosen i f x.1 x.0) (sym s) (resolve-HasChosen i f w (omega arith)),
        )
  ]
