-- ===== src/Select/Chosen.antt =====
-- src/select.rs: a poll of a select that ends with one of its cases.
use mlua_isle.Base.{
  ℕ, zero, suc, ◌+◌, ◌≡◌, ◌≢◌, ◌<◌, ◌%◌, ◌∙◌, sym, ap, subst, length-set, none, some, arith, length,
  get_elem?, set, Option-cases, inl, inr, true, ready, pending, ok, Result,
}
use native.Mathlib.Nat.{mod-lt}
use mlua_isle.Tokio.{Env}
use mlua_isle.Select.{
  World, Arm, SelectFuture, resolve, poll_take, poll_arms, poll, find_delivered, take_delivered,
  Values, sent,
}
use mlua_isle.Select.Rounds.{Poll-cases, get_elem?_some, round_step, after_poll}
use mlua_isle.Select.Left.{HasLeft, resolve-HasLeft}
use mlua_isle.Select.Resolve.{
  HasChosen, resolve-HasChosen, rounds-HasChosen, ready_step, ready_inj, index_lem, delivered_found,
}

module _ {E : Env} where
  -- The rounds `k` to `k + rounds - 1` of a poll up to the first case that is ready: the world, and the
  -- select with what its cases then wait for.
  unfoldable pub ready_state : ℕ → ℕ → SelectFuture E → ℕ → World E → World E × SelectFuture E
  ready_state zero k f p w = (w, f)
  ready_state (suc rounds) k f p w =
      let i = (f.start + k) % length f.arms in
      elim (get_elem? f.arms i) [
        | none ↦ (w, f)
        | some a ↦
            (let (w', a', out) = poll_take a p w in
              let f' = record f { arms = set f.arms i a' } in
              elim out [ ready r ↦ (w', f') | pending ↦ ready_state rounds (suc k) f' p w' ])
      ]

  -- The state in which a poll finds its case: at once if a send was delivered before.
  unfoldable pub choice_state : SelectFuture E → ℕ → World E → World E × SelectFuture E
  unfolding ready_state
  choice_state f p w = elim (find_delivered 0 f.arms w) [
    | some i ↦ (w, f)
    | none ↦ ready_state (length f.arms) 0 f p w
  ]

  -- Every case but `i` has left, in `u`, what it waited for in the state before.
  abbrev pub OthersLeft : ℕ → World E × SelectFuture E → World E → Type 0
  OthersLeft i (w, f) u = (k : ℕ) (b : Arm E) → get_elem? f.arms k ≡ some b → k ≢ i → HasLeft b w u

  pending_state :
      (r k : ℕ) (f : SelectFuture E) (p : ℕ) (w : World E) (a : Arm E)
      → get_elem? f.arms ((f.start + k) % length f.arms) ≡ some a
      → (poll_take a p w).2 ≡ pending
      → ready_state (suc r) k f p w
        ≡ ready_state r
            (suc k)
            (after_poll ((f.start + k) % length f.arms) a p f w)
            p
            (poll_take a p w).0
  unfolding ready_state
  pending_state r k f p w a q c = simp (q, c, ready_state, after_poll)

  reached_state :
      (r k : ℕ) (f : SelectFuture E) (p : ℕ) (w : World E) (a : Arm E)
      (out : Result (Values E) E.Failure)
      → get_elem? f.arms ((f.start + k) % length f.arms) ≡ some a
      → (poll_take a p w).2 ≡ ready out
      → ready_state (suc r) k f p w
        ≡ ((poll_take a p w).0, after_poll ((f.start + k) % length f.arms) a p f w)
  unfolding ready_state
  reached_state r k f p w a out q c = simp (q, c, ready_state, after_poll)

  rounds-OthersLeft :
      (r k : ℕ) (f : SelectFuture E) (p : ℕ) (w : World E) (i : ℕ) (vs : Values E)
      → 0 < length f.arms
      → (poll_arms r k f p w).2 ≡ ready (ok (i, vs))
      → OthersLeft i (ready_state r k f p w) (poll_arms r k f p w).0
  unfolding poll_arms
  rounds-OthersLeft zero k f p w i vs h e = cc
  rounds-OthersLeft (suc r) k f p w i vs h e =
      let n = length f.arms in
      let j = (f.start + k) % n in
      elim (Option-cases (get_elem? f.arms j)) [
        | inl q ↦ absurd (get_elem?_some f.arms j (mod-lt (f.start + k) h) q)
        | inr (b, q) ↦
            let f' = after_poll j b p f w in
            let w' = (poll_take b p w).0 in
            let ls = length-set f.arms j (poll_take b p w).1 in
            elim (Poll-cases (poll_take b p w).2) [
              | inl c ↦
                  let s = round_step r k f p w b q c in
                  let rest =
                    rounds-OthersLeft r (suc k) f' p w' i vs (omega (arith, ls))
                      (ap (λ x. x.2) (sym s) ∙ e) in
                  subst (λ x. OthersLeft i x (poll_arms (suc r) k f p w).0)
                    (sym (pending_state r k f p w b q c))
                    (subst (λ x. OthersLeft i (ready_state r (suc k) f' p w') x.0) (sym s) rest)
              | inr (out, c) ↦
                  let s = ready_step r k f p w b out q c in
                  let same : j ≡ i = index_lem j i out vs (ready_inj (ap (λ x. x.2) (sym s) ∙ e)) in
                  subst (λ x. OthersLeft i x (poll_arms (suc r) k f p w).0)
                    (sym (reached_state r k f p w b out q c))
                    (subst (λ x. OthersLeft i (w', f') x.0) (sym s)
                      (subst (λ x. OthersLeft x (w', f') (resolve j f' w').0) same
                        (resolve-HasLeft j f' w')))
            ]
      ]

  -- A poll of a select of at least one case that ends with the case `i` and its values: `i` is the
  -- position of a case, the mark of the select says that it has its case, and every other case waits
  -- for nothing. What the other cases waited for when the poll found its case, they have left: the
  -- waiter of a receive is in the queue of its channel no more, the offer of a send is not open, a send
  -- is no more among the senders that wait for the host, and the task of a task case has one such wait
  -- fewer.
  pub poll-HasChosen :
      (f : SelectFuture E) (p : ℕ) (w : World E) (i : ℕ) (vs : Values E)
      → 0 < length f.arms
      → (poll f p w).2 ≡ ready (ok (i, vs))
      → HasChosen i f (poll f p w).1 (poll f p w).0
        × OthersLeft i (choice_state f p w) (poll f p w).0
  unfolding poll take_delivered choice_state
  poll-HasChosen f p w i vs h e = elim (Option-cases (find_delivered 0 f.arms w)) [
    | inl q ↦
        let s : poll f p w ≡ poll_arms (length f.arms) 0 f p w = simp (q, poll, take_delivered) in
        let c : choice_state f p w ≡ ready_state (length f.arms) 0 f p w = simp (q, choice_state) in
        let end = ap (λ x. x.2) (sym s) ∙ e in
        (
          subst (λ x. HasChosen i f x.1 x.0) (sym s)
              (rounds-HasChosen (length f.arms) 0 f p w i vs h end),
          subst (λ x. OthersLeft i x (poll f p w).0) (sym c)
              (subst (λ x. OthersLeft i (ready_state (length f.arms) 0 f p w) x.0) (sym s)
                (rounds-OthersLeft (length f.arms) 0 f p w i vs h end)),
        )
    | inr (j, q) ↦
        let (d, m, l) = delivered_found 0 f.arms w j q in
        let same : j ≡ i = ground arith in
        let (w', f') = resolve j f w in
        let s : poll f p w ≡ (w', f', ready (ok (j, sent true))) = simp (q, poll, take_delivered) in
        let c : choice_state f p w ≡ (w, f) = simp (q, choice_state) in
        (
          subst (λ x. HasChosen x f (poll f p w).1 (poll f p w).0) same
              (subst (λ x. HasChosen j f x.1 x.0) (sym s) (resolve-HasChosen j f w (omega arith))),
          subst (λ x. OthersLeft i x (poll f p w).0) (sym c)
              (subst (λ x. OthersLeft i (w, f) x.0) (sym s)
                (subst (λ x. OthersLeft x (w, f) (resolve j f w).0) same (resolve-HasLeft j f w))),
        )
  ]
