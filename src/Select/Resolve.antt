-- ===== src/Select/Resolve.antt =====
-- src/select.rs: what a select that has its case leaves behind.
use mlua_isle.Base.{
  ℕ, zero, suc, ◌+◌, ◌≡◌, ◌≢◌, refl, sym, ap, subst, length-set, ◌%◌, ◌∙◌, true, false, List, [],
  ◌∷◌, Option, none, some, arith, ◌<◌, length, get_elem?, Bool-cases, Option-cases, inl, inr, ready,
  ok, err, Result,
}
use native.Mathlib.Nat.{mod-lt}
use mlua_isle.Tokio.{Env}
use mlua_isle.Select.Rounds.{Poll-cases, get_elem?_some, round_step, after_poll}
use mlua_isle.Chan.{Chan, Heap, is_offered, claim}
use mlua_isle.Chan.Receive.{Receiving, slot_of, take_slot, forget, give_back}
use mlua_isle.Chan.Receive
use mlua_isle.Chan.Send.{Sending, drop_reservation, leave_sink, withdraw_offer}
use mlua_isle.Chan.Send
use mlua_isle.Select.{
  World, Arm, recv, send, timer, task, focus, unfocus, withdraw, is_at, SelectFuture, claim_mark,
  withdraw_but, resolve, withdraw_all, Values, poll_arms, poll_take, with_index, delivered,
  find_delivered,
}

pub ready_inj {ℓ} : {A : Type ℓ} {x y : A} → ready x ≡ ready y → x ≡ y
ready_inj e = cc

module _ {E : Env} where
  -- The heap keeps the marks that have their case, and opens no offer again.
  abbrev pub IsLater : Heap E → Heap E → Type 0
  IsLater h h' =
      ((m : ℕ) → h.claimed_at m ≡ true → h'.claimed_at m ≡ true)
      × ((a : ℕ)
          → is_offered (h.offer_at a).state ≡ false
          → is_offered (h'.offer_at a).state ≡ false)

  give_back-IsLater : (v : Option E.Value) (s : Chan E) → IsLater s.heap (give_back v s).heap
  unfolding give_back
  give_back-IsLater none s = (λ m c. c, λ a c. c)
  give_back-IsLater (some v) s = (λ m c. c, λ a c. c)

  take_slot-IsLater : (o : Option ℕ) (s : Chan E) → IsLater s.heap (take_slot o s).heap
  unfolding take_slot
  take_slot-IsLater none s = (λ m c. c, λ a c. c)
  take_slot-IsLater (some a) s = (λ m c. c, λ a c. c)

  forget-IsLater : (o : Option ℕ) (s : Chan E) → IsLater s.heap (forget o s).heap
  unfolding forget
  forget-IsLater none s = (λ m c. c, λ a c. c)
  forget-IsLater (some a) s = (λ m c. c, λ a c. c)

  IsLater-trans : (h1 h2 h3 : Heap E) → IsLater h1 h2 → IsLater h2 h3 → IsLater h1 h3
  IsLater-trans h1 h2 h3 p q = (λ m c. q.0 m (p.0 m c), λ a c. q.1 a (p.1 a c))

  receive-IsLater : (r : Receiving) (s : Chan E) → IsLater s.heap (Receive.withdraw r s).0.heap
  unfolding Receive.withdraw
  receive-IsLater r s =
      let s1 = forget r.waiter s in
      let s2 = take_slot r.waiter s1 in
      IsLater-trans s.heap s1.heap (Receive.withdraw r s).0.heap (forget-IsLater r.waiter s) (
        IsLater-trans s1.heap s2.heap (Receive.withdraw r s).0.heap (take_slot-IsLater r.waiter s1)
          (give_back-IsLater (slot_of s r.waiter) s2))

  pub drop_reservation_lem :
      (o : Option E.Ticket) (s : Chan E) → (drop_reservation o s).heap ≡ s.heap
  unfolding drop_reservation
  drop_reservation_lem none s = refl
  drop_reservation_lem (some k) s = ground arith

  pub leave_sink_lem : (o : Option ℕ) (s : Chan E) → (leave_sink o s).heap ≡ s.heap
  unfolding leave_sink
  leave_sink_lem none s = refl
  leave_sink_lem (some a) s = refl

  -- The offer left with a sender is not open.
  abbrev pub IsClosed : Option ℕ → Heap E → Type 0
  IsClosed o h = (a : ℕ) → o ≡ some a → is_offered (h.offer_at a).state ≡ false

  withdraw_offer-IsLater :
      (o : Option ℕ) (s : Chan E)
      → IsLater s.heap (withdraw_offer o s).0.heap
        × IsClosed (withdraw_offer o s).1 (withdraw_offer o s).0.heap
  unfolding withdraw_offer
  withdraw_offer-IsLater none s = ((λ m c. c, λ a c. c), λ a e. cc)
  withdraw_offer-IsLater (some a) s = ground arith

  send-IsLater :
      (d : Sending E) (s : Chan E)
      → IsLater s.heap (Send.withdraw d s).0.heap
        × IsClosed (Send.withdraw d s).1.offer (Send.withdraw d s).0.heap
  unfolding Send.withdraw
  send-IsLater d s =
      let s1 = drop_reservation d.reserve s in
      let s2 = leave_sink d.sink_wait s1 in
      let e = leave_sink_lem d.sink_wait s1 ∙ drop_reservation_lem d.reserve s in
      let (p, q) = withdraw_offer-IsLater d.offer s2 in
      (
        (
          λ m c. p.0 m (ap (λ h. h.claimed_at m) e ∙ c),
          λ a c. p.1 a (ap (λ h. is_offered (h.offer_at a).state) e ∙ c),
        ),
        q,
      )

  -- The case waits for nothing: no waiter, no open offer, no reservation.
  abbrev pub IsIdle : Arm E → Heap E → Type 0
  IsIdle (recv c r) h = r.waiter ≡ none
  IsIdle (send c d) h = (d.reserve ≡ none) × (d.sink_wait ≡ none) × IsClosed d.offer h
  IsIdle (timer t a) h = Unit
  IsIdle (task a) h = a.waiting ≡ none

  IsIdle-later : (a : Arm E) (h h' : Heap E) → IsLater h h' → IsIdle a h → IsIdle a h'
  IsIdle-later (recv c r) h h' l i = i
  IsIdle-later (send c d) h h' l i = (i.0, i.1, λ a e. l.1 a (i.2 a e))
  IsIdle-later (timer t a) h h' l i = tt
  IsIdle-later (task a) h h' l i = i

  withdraw_lem :
      (a : Arm E) (w : World E)
      → IsLater w.heap (withdraw a w).0.heap × IsIdle (withdraw a w).1 (withdraw a w).0.heap
  unfolding withdraw focus unfocus Receive.withdraw Send.withdraw
  withdraw_lem (recv c r) w = (receive-IsLater r (focus c w), refl)
  withdraw_lem (send c d) w = let (p, q) = send-IsLater d (focus c w) in (p, (refl, refl, q))
  withdraw_lem (timer t a) w = ((λ m c. c, λ a c. c), tt)
  withdraw_lem (task a) w = ((λ m c. c, λ a c. c), refl)

  -- What is left of the cases: that of `chosen` as it was, the others idle.
  abbrev pub AreIdleBut : Option ℕ → ℕ → List (Arm E) → List (Arm E) → Heap E → Type 0
  AreIdleBut chosen j [] [] h = Unit
  AreIdleBut chosen j [] (b ∷ bs) h = ⊥
  AreIdleBut chosen j (a ∷ as') [] h = ⊥
  AreIdleBut chosen j (a ∷ as') (b ∷ bs) h =
      ((is_at chosen j ≡ true → b ≡ a) × (is_at chosen j ≡ false → IsIdle b h))
      × AreIdleBut chosen (suc j) as' bs h

  withdraw_but_lem :
      (chosen : Option ℕ) (j : ℕ) (arms : List (Arm E)) (w : World E)
      → let (w', arms') = withdraw_but chosen j arms w in
        IsLater w.heap w'.heap × AreIdleBut chosen j arms arms' w'.heap
  unfolding withdraw_but
  withdraw_but_lem chosen j [] w = ((λ m c. c, λ a c. c), tt)
  withdraw_but_lem chosen j (a ∷ as') w = elim (Bool-cases (is_at chosen j)) [
    | inl e ↦
        let (p, q) = withdraw_but_lem chosen (suc j) as' w in
        rw e (p, ((λ _. refl, λ n. absurd (cc)), q))
    | inr e ↦
        let (w', a') = withdraw a w in
        let (l, i) = withdraw_lem a w in
        let (p, q) = withdraw_but_lem chosen (suc j) as' w' in
        let w'' = (withdraw_but chosen (suc j) as' w').0 in
        rw e (
          IsLater-trans w.heap w'.heap w''.heap l p,
          ((λ n. absurd (cc), λ _. IsIdle-later a' w'.heap w''.heap p i), q),
        )
  ]

  -- After a select has its case, its mark says so and every other case is idle: no waiter of it is
  -- in a channel, no offer of it is open and it reserves no room. The chosen case is as it was. A
  -- select without a ready case that is given up leaves every case idle.
  pub resolve-AreIdleBut :
      (chosen : ℕ) (f : SelectFuture E) (w : World E)
      → (let (w', f') = resolve chosen f w in
          (w'.heap.claimed_at f.mark ≡ true) × AreIdleBut (some chosen) 0 f.arms f'.arms w'.heap)
        × (let (w', f') = withdraw_all f w in
            (w'.heap.claimed_at f.mark ≡ true) × AreIdleBut none 0 f.arms f'.arms w'.heap)
  unfolding resolve withdraw_all claim_mark claim
  resolve-AreIdleBut chosen f w =
      let w0 = claim_mark f.mark w in
      let (p, q) = withdraw_but_lem (some chosen) 0 f.arms w0 in
      let (p', q') = withdraw_but_lem none 0 f.arms w0 in
      ((p.0 f.mark (ground arith), q), (p'.0 f.mark (ground arith), q'))

  IsIdle-at :
      (i j : ℕ) (xs ys : List (Arm E)) (h : Heap E)
      → AreIdleBut (some i) j xs ys h
      → (k : ℕ) (b : Arm E) → get_elem? ys k ≡ some b
      → j + k ≢ i
      → IsIdle b h
  IsIdle-at i j [] [] h l k b g n = cc
  IsIdle-at i j [] (y ∷ ys) h l k b g n = absurd l
  IsIdle-at i j (x ∷ xs) [] h l k b g n = absurd l
  IsIdle-at i j (x ∷ xs) (y ∷ ys) h l zero b g n =
      let e : is_at (some i) j ≡ false = ground arith in
      let same : y ≡ b = ground arith in subst (λ a. IsIdle a h) same (l.0.1 e)
  IsIdle-at i j (x ∷ xs) (y ∷ ys) h l (suc k) b g n =
      IsIdle-at i (suc j) xs ys h l.1 k b g (λ e. n (omega arith))

  -- The select has its case at `i`.
  abbrev pub HasChosen : ℕ → SelectFuture E → SelectFuture E → World E → Type 0
  HasChosen i f f' w' =
      (i < length f.arms)
      × (w'.heap.claimed_at f.mark ≡ true)
      × ((k : ℕ) (b : Arm E) → get_elem? f'.arms k ≡ some b → k ≢ i → IsIdle b w'.heap)

  pub resolve-HasChosen :
      (i : ℕ) (f : SelectFuture E) (w : World E)
      → i < length f.arms
      → HasChosen i f (resolve i f w).1 (resolve i f w).0
  resolve-HasChosen i f w l =
      let (c, q) = (resolve-AreIdleBut i f w).0 in
      (
        l,
        c,
        λ k b g n.
            IsIdle-at i 0 f.arms (resolve i f w).1.arms (resolve i f w).0.heap q k b g
              (λ e. n (omega arith)),
      )

  pub index_lem :
      (j i : ℕ) (r : Result (Values E) E.Failure) (vs : Values E)
      → with_index j r ≡ ok (i, vs)
      → j ≡ i
  index_lem j i (ok x) vs e = ground arith
  index_lem j i (err x) vs e = cc

  pub ready_step :
      (r k : ℕ) (f : SelectFuture E) (p : ℕ) (w : World E) (a : Arm E)
      (out : Result (Values E) E.Failure)
      → get_elem? f.arms ((f.start + k) % length f.arms) ≡ some a
      → (poll_take a p w).2 ≡ ready out
      → let i = (f.start + k) % length f.arms in
        let (w', f') = resolve i (after_poll i a p f w) (poll_take a p w).0 in
        poll_arms (suc r) k f p w ≡ (w', f', ready (with_index i out))
  unfolding poll_arms
  ready_step r k f p w a out q c = simp (q, c, poll_arms, after_poll)

  pub rounds-HasChosen :
      (r k : ℕ) (f : SelectFuture E) (p : ℕ) (w : World E) (i : ℕ) (vs : Values E)
      → 0 < length f.arms
      → (poll_arms r k f p w).2 ≡ ready (ok (i, vs))
      → HasChosen i f (poll_arms r k f p w).1 (poll_arms r k f p w).0
  unfolding poll_arms
  rounds-HasChosen zero k f p w i vs h e = cc
  rounds-HasChosen (suc r) k f p w i vs h e =
      let n = length f.arms in
      let j = (f.start + k) % n in
      let l : j < n = mod-lt (f.start + k) h in
      elim (Option-cases (get_elem? f.arms j)) [
        | inl q ↦ absurd (get_elem?_some f.arms j l q)
        | inr (b, q) ↦
            let f' = after_poll j b p f w in
            let w' = (poll_take b p w).0 in
            let ls = length-set f.arms j (poll_take b p w).1 in
            elim (Poll-cases (poll_take b p w).2) [
              | inl c ↦
                  let s = round_step r k f p w b q c in
                  let (l', m, idle) =
                    rounds-HasChosen r (suc k) f' p w' i vs (omega (arith, ls))
                      (ap (λ x. x.2) (sym s) ∙ e) in
                  subst (λ x. HasChosen i f x.1 x.0) (sym s) (omega (arith, ls), m, idle)
              | inr (out, c) ↦
                  let s = ready_step r k f p w b out q c in
                  let (l', m, idle) = resolve-HasChosen j f' w' (omega (arith, ls)) in
                  let same : j ≡ i = index_lem j i out vs (ready_inj (ap (λ x. x.2) (sym s) ∙ e)) in
                  subst
                    (λ x. HasChosen x f (poll_arms (suc r) k f p w).1 (poll_arms (suc r) k f p w).0)
                    same (subst (λ x. HasChosen j f x.1 x.0) (sym s) (l, m, idle))
            ]
      ]

  pub delivered_found :
      (j : ℕ) (arms : List (Arm E)) (w : World E) (i : ℕ)
      → find_delivered j arms w ≡ some i
      → (d : ℕ) × (i ≡ j + d) × (d < length arms)
  unfolding find_delivered
  delivered_found j [] w i e = cc
  delivered_found j (a ∷ as') w i e = elim (Bool-cases (delivered a w)) [
    | inl q ↦ (0, ground arith, omega arith)
    | inr q ↦
        let e' : find_delivered (suc j) as' w ≡ some i = ground arith in
        let (d, m, l) = delivered_found (suc j) as' w i e' in (suc d, omega arith, omega arith)
  ]
