-- ===== src/Select/Left.antt =====
-- src/select.rs: the queues that the cases of a select leave.
use mlua_isle.Base.{
  ℕ, zero, suc, ◌+◌, ◌-◌, ◌≡◌, ◌≢◌, ◌≤◌, subst, false, List, [], ◌∷◌, Option, none, some, arith,
  get_elem?, count, Bool-cases, inl, inr,
}
use mlua_isle.Tokio.{Env}
use mlua_isle.Chan.{Chan, is_offered}
use mlua_isle.Chan.Receive.{Receiving, slot_of, take_slot, forget, give_back}
use mlua_isle.Chan.Receive
use mlua_isle.Chan.Send.{Sending, drop_reservation, leave_sink, withdraw_offer, retract}
use mlua_isle.Chan.Send
use mlua_isle.Select.{
  World, Arm, recv, send, timer, task, focus, unfocus, withdraw, is_at, SelectFuture, claim_mark,
  withdraw_but, resolve, set_task, stop_waiting,
}
use mlua_isle.Select.Queues.{IsLess, receive_left, send_left}

count-stop_waiting :
    (o : Option ℕ) (ws : List ℕ) (k : ℕ)
    → (count k (stop_waiting o ws) ≤ count k ws)
      × (o ≡ some k → count k (stop_waiting o ws) ≤ count k ws - 1)
count-stop_waiting none ws k = (omega arith, λ e. cc)
count-stop_waiting (some q) [] k = (omega arith, λ e. omega arith)
count-stop_waiting (some q) (x ∷ ws) k =
    let (a, b) = count-stop_waiting (some q) ws k in
    (ground (arith, a), λ e. ground (arith, e, b e))

module _ {E : Env} where
  -- From `w` to `u` no queue of a channel or of a task gained an entry, and no offer was opened.
  record Shrinks (w u : World E) : Type 0 where
    chans : (c a : ℕ) → count a (u.chans c).waiters ≤ count a (w.chans c).waiters
    sinks : (c a : ℕ) → count a (u.chans c).sink_waiters ≤ count a (w.chans c).sink_waiters
    tasks : (i k : ℕ) → count k (u.tasks i).wakers ≤ count k (w.tasks i).wakers
    closed_offers :
        (a : ℕ)
        → is_offered (w.heap.offer_at a).state ≡ false
        → is_offered (u.heap.offer_at a).state ≡ false

  Shrinks-refl : (w : World E) → Shrinks w w
  Shrinks-refl w = record {
    chans = λ c a. omega arith;
    sinks = λ c a. omega arith;
    tasks = λ i k. omega arith;
    closed_offers = λ a c. c;
  }

  Shrinks-trans : (w u v : World E) → Shrinks w u → Shrinks u v → Shrinks w v
  Shrinks-trans w u v p q = record {
    chans = λ c a. omega (arith, p.chans c a, q.chans c a);
    sinks = λ c a. omega (arith, p.sinks c a, q.sinks c a);
    tasks = λ i k. omega (arith, p.tasks i k, q.tasks i k);
    closed_offers = λ a c. q.closed_offers a (p.closed_offers a c);
  }

  unfocus-Shrinks :
      (c : ℕ) (t : Chan E) (w : World E) → IsLess (focus c w) t → Shrinks w (unfocus c t w)
  unfolding focus unfocus
  unfocus-Shrinks c t w p = record {
    chans = λ x a. ground (arith, p.waiters a);
    sinks = λ x a. ground (arith, p.sinks a);
    tasks = λ i k. omega arith;
    closed_offers = λ a e. p.closed_offers a e;
  }

  -- The case has left what it waited for in `w`: the waiter of a receive is in the queue of its channel
  -- no more, the offer of a send is not open, a send is not among the senders that wait for the host,
  -- and the wait of a task case has left the waits of the task.
  abbrev pub HasLeft : Arm E → World E → World E → Type 0
  HasLeft (recv c r) w u = (a : ℕ) → r.waiter ≡ some a → count a (u.chans c).waiters ≡ 0
  HasLeft (send c d) w u =
      ((a : ℕ) → d.offer ≡ some a → is_offered (u.heap.offer_at a).state ≡ false)
      × ((a : ℕ) → d.sink_wait ≡ some a → count a (u.chans c).sink_waiters ≡ 0)
  HasLeft (timer t s) w u = Unit
  HasLeft (task b) w u =
      (k : ℕ)
      → b.waiting ≡ some k
      → count k (u.tasks b.id).wakers ≤ count k (w.tasks b.id).wakers - 1

  HasLeft-Shrinks :
      (b : Arm E) (w0 w u v : World E) → Shrinks w0 w → Shrinks u v → HasLeft b w u → HasLeft b w0 v
  HasLeft-Shrinks (recv c r) w0 w u v p q h = λ a e. omega (arith, h a e, q.chans c a)
  HasLeft-Shrinks (send c d) w0 w u v p q h =
      (λ a e. q.closed_offers a (h.0 a e), λ a e. omega (arith, h.1 a e, q.sinks c a))
  HasLeft-Shrinks (timer t s) w0 w u v p q h = tt
  HasLeft-Shrinks (task b) w0 w u v p q h =
      λ k e. omega (arith, h k e, p.tasks b.id k, q.tasks b.id k)

  withdraw-HasLeft :
      (b : Arm E) (w : World E) → Shrinks w (withdraw b w).0 × HasLeft b w (withdraw b w).0
  unfolding withdraw focus unfocus set_task
  withdraw-HasLeft (recv c r) w =
      let (p, q) = receive_left r (focus c w) in
      (unfocus-Shrinks c (Receive.withdraw r (focus c w)).0 w p, λ a e. ground (arith, q a e))
  withdraw-HasLeft (send c d) w =
      let (p, x, y) = send_left d (focus c w) in
      (
        unfocus-Shrinks c (Send.withdraw d (focus c w)).0 w p,
        (λ a e. x a e, λ a e. ground (arith, y a e)),
      )
  withdraw-HasLeft (timer t s) w = (Shrinks-refl w, tt)
  withdraw-HasLeft (task b) w =
      let ws = (w.tasks b.id).wakers in
      (
        record {
          chans = λ c a. omega arith;
          sinks = λ c a. omega arith;
          tasks = λ i k. ground (arith, (count-stop_waiting b.waiting ws k).0);
          closed_offers = λ a c. c;
        },
        λ k e. ground (arith, (count-stop_waiting b.waiting ws k).1 e),
      )

  withdraw_but-HasLeft :
      (i j : ℕ) (arms : List (Arm E)) (w : World E)
      → let u = (withdraw_but (some i) j arms w).0 in
        Shrinks w u × ((k : ℕ) (b : Arm E) → get_elem? arms k ≡ some b → j + k ≢ i → HasLeft b w u)
  unfolding withdraw_but
  withdraw_but-HasLeft i j [] w = (Shrinks-refl w, λ k b g n. cc)
  withdraw_but-HasLeft i j (x ∷ xs) w = elim (Bool-cases (is_at (some i) j)) [
    | inl e ↦
        let (p, q) = withdraw_but-HasLeft i (suc j) xs w in
        let u = (withdraw_but (some i) (suc j) xs w).0 in
        rw e (
          p,
          λ k b g n.
              elim k as (λ k'. get_elem? (x ∷ xs) k' ≡ some b → j + k' ≢ i → HasLeft b w u) [
                | zero ↦ λ g' n'. absurd (ground (arith, e, n'))
                | suc k' ↦ λ g' n'. q k' b g' (λ m. n' (omega (arith, m)))
              ]
                g n,
        )
    | inr e ↦
        let v = (withdraw x w).0 in
        let (l, h) = withdraw-HasLeft x w in
        let (p, q) = withdraw_but-HasLeft i (suc j) xs v in
        let u = (withdraw_but (some i) (suc j) xs v).0 in
        rw e (
          Shrinks-trans w v u l p,
          λ k b g n.
              elim k as (λ k'. get_elem? (x ∷ xs) k' ≡ some b → j + k' ≢ i → HasLeft b w u) [
                | zero ↦ λ g' n'.
                    let same : x ≡ b = ground (arith, g') in
                    subst (λ y. HasLeft y w u) same (HasLeft-Shrinks x w w v u (Shrinks-refl w) p h)
                | suc k' ↦ λ g' n'.
                    HasLeft-Shrinks b w v u u l (Shrinks-refl u)
                      (q k' b g' (λ m. n' (omega (arith, m))))
              ]
                g n,
        )
  ]

  -- A select that chooses its case `i`: every other case leaves what it waited for.
  pub resolve-HasLeft :
      (i : ℕ) (f : SelectFuture E) (w : World E) (k : ℕ) (b : Arm E)
      → get_elem? f.arms k ≡ some b
      → k ≢ i
      → HasLeft b w (resolve i f w).0
  unfolding resolve claim_mark
  resolve-HasLeft i f w k b g n =
      let w0 = claim_mark f.mark w in
      let p : Shrinks w w0 = record {
        chans = λ c a. omega arith;
        sinks = λ c a. omega arith;
        tasks = λ t q. omega arith;
        closed_offers = λ a c. c;
      } in
      let u = (resolve i f w).0 in
      HasLeft-Shrinks b w w0 u u p (Shrinks-refl u)
        ((withdraw_but-HasLeft i 0 f.arms w0).1 k b g (λ e. n (omega (arith, e))))
