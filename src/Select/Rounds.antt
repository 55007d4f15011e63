-- ===== src/Select/Rounds.antt =====
-- src/select.rs: the rounds of a poll over the cases.
use Prim.Native.Nat.{◌%◌}
use native.Mathlib.Nat.{mod-lt, mod-add-mod, mod-eq-sub-mod, mod-eq_of_lt, add-mod_right}
use mlua_isle.Base.{
  ℕ, zero, suc, ◌+◌, ◌-◌, ◌<◌, ◌≤◌, ◌≡◌, ◌≢◌, ◌⊎◌, refl, sym, ap, subst, ◌∙◌, false, List, [], ◌∷◌,
  none, some, arith, ltb, leb, ltb→lt, ◌==◌, length, get_elem?, set, length-set, Bool-cases,
  Option-cases, inl, inr, Poll, ready, pending,
}
use mlua_isle.Tokio.{Env}
use mlua_isle.Chan.{get_or}
use mlua_isle.Select.{
  World, Arm, SelectFuture, poll_take, poll_arms, poll, take_delivered, find_delivered, delivered,
}

mod_small :
    (x d n : ℕ)
    → x < n
    → d < n
    → ((x + d < n) × ((x + d) % n ≡ x + d)) ⊎ ((n ≤ x + d) × ((x + d) % n ≡ x + d - n))
mod_small x d n p q = elim (Bool-cases (ltb (x + d) n)) [
  | inl c ↦ inl (ltb→lt (x + d) n c, mod-eq_of_lt (ltb→lt (x + d) n c))
  | inr c ↦
      let l : n ≤ x + d = ground arith in
      let r : x + d - n < n = omega arith in inr (l, mod-eq-sub-mod l ∙ mod-eq_of_lt r)
]

mod_apart : (a d n : ℕ) → 0 < d → d < n → (a + d) % n ≢ a % n
mod_apart a d n p q e =
    let l : a % n < n = mod-lt a (omega arith) in
    elim (mod_small (a % n) d n l q) [
      | inl (c, r) ↦ omega (arith, sym r ∙ mod-add-mod a n d ∙ e)
      | inr (c, r) ↦ omega (arith, sym r ∙ mod-add-mod a n d ∙ e)
    ]

-- Every position is that of a round.
mod_covers : (s i n : ℕ) → i < n → (k : ℕ) × (k < n) × ((s + k) % n ≡ i)
mod_covers s i n h =
    let l : s % n < n = mod-lt s (omega arith) in
    elim (Bool-cases (leb (s % n) i)) [
      | inl c ↦
          let le : s % n ≤ i = ground arith in
          let e : s % n + (i - s % n) ≡ i = omega arith in
          (
            i - s % n,
            omega arith,
            sym (mod-add-mod s n (i - s % n)) ∙ ap (λ x. x % n) e ∙ mod-eq_of_lt h,
          )
      | inr c ↦
          let le : i < s % n = ground arith in
          let e : s % n + (i + n - s % n) ≡ i + n = omega arith in
          (
            i + n - s % n,
            omega arith,
            sym (mod-add-mod s n (i + n - s % n))
                ∙ ap (λ x. x % n) e
                ∙ add-mod_right i n
                ∙ mod-eq_of_lt h,
          )
    ]

module _ {ℓ} {A : Type ℓ} where
  get_elem?-set_ne :
      (xs : List A) (i j : ℕ) (y : A) → i ≢ j → get_elem? (set xs j y) i ≡ get_elem? xs i
  get_elem?-set_ne [] i j y n = refl
  get_elem?-set_ne (x ∷ xs) zero zero y n = absurd (n refl)
  get_elem?-set_ne (x ∷ xs) zero (suc j) y n = refl
  get_elem?-set_ne (x ∷ xs) (suc i) zero y n = refl
  get_elem?-set_ne (x ∷ xs) (suc i) (suc j) y n = get_elem?-set_ne xs i j y (λ e. n (ap suc e))

module _ {ℓ} {A : Type ℓ} where
  pub get_elem?_some : (xs : List A) (i : ℕ) → i < length xs → get_elem? xs i ≢ none
  get_elem?_some [] i h e = omega arith
  get_elem?_some (x ∷ xs) zero h e = cc
  get_elem?_some (x ∷ xs) (suc i) h e = get_elem?_some xs i (omega arith) e

  pub get_elem?-lt : (xs : List A) (i : ℕ) (x : A) → get_elem? xs i ≡ some x → i < length xs
  get_elem?-lt [] i x e = cc
  get_elem?-lt (y ∷ xs) zero x e = omega arith
  get_elem?-lt (y ∷ xs) (suc i) x e = omega (arith, get_elem?-lt xs i x e)

pub Poll-cases {ℓ} : {A : Type ℓ} (o : Poll A) → (o ≡ pending) ⊎ ((a : A) × (o ≡ ready a))
Poll-cases pending = inl refl
Poll-cases (ready a) = inr (a, refl)

module _ {E : Env} where
  -- The case was polled, and is not ready.
  abbrev pub WasPolled : Arm E → ℕ → Type 0
  WasPolled a p = (w : World E) × ((poll_take a p w).2 ≡ pending)

  -- The future after the case at `i` was polled.
  abbrev pub after_poll : ℕ → Arm E → ℕ → SelectFuture E → World E → SelectFuture E
  after_poll i a p f w = record f { arms = set f.arms i (poll_take a p w).1 }

  pub round_step :
      (r k : ℕ) (f : SelectFuture E) (p : ℕ) (w : World E) (a : Arm E)
      → get_elem? f.arms ((f.start + k) % length f.arms) ≡ some a
      → (poll_take a p w).2 ≡ pending
      → poll_arms (suc r) k f p w
        ≡ poll_arms r
            (suc k)
            (after_poll ((f.start + k) % length f.arms) a p f w)
            p
            (poll_take a p w).0
  unfolding poll_arms
  round_step r k f p w a q c = simp (q, c, poll_arms, after_poll)

  -- A round that is not the last finds its case.
  round_pending :
      (r k : ℕ) (f : SelectFuture E) (p : ℕ) (w : World E)
      → 0 < length f.arms
      → (poll_arms (suc r) k f p w).2 ≡ pending
      → (a : Arm E) × (get_elem? f.arms ((f.start + k) % length f.arms) ≡ some a)
        × ((poll_take a p w).2 ≡ pending)
  unfolding poll_arms
  round_pending r k f p w h e =
      let i = (f.start + k) % length f.arms in
      elim (Option-cases (get_elem? f.arms i)) [
        | inl q ↦ absurd (get_elem?_some f.arms i (mod-lt (f.start + k) h) q)
        | inr (b, q) ↦ elim (Poll-cases (poll_take b p w).2) [
          | inr (out, c) ↦ absurd (ground arith)
          | inl c ↦ (b, q, c)
        ]
      ]

  rounds_pending :
      (r k : ℕ) (f : SelectFuture E) (p : ℕ) (w : World E)
      → k + r ≤ length f.arms
      → (poll_arms r k f p w).2 ≡ pending
      → (d : ℕ) (a : Arm E) → d < r
      → get_elem? f.arms ((f.start + k + d) % length f.arms) ≡ some a
      → WasPolled a p
  rounds_pending zero k f p w h e d a l g = absurd (omega arith)
  rounds_pending (suc r) k f p w h e d a l g =
      let n = length f.arms in
      let i = (f.start + k) % n in
      let (b, q, c) = round_pending r k f p w (omega arith) e in
      elim (Bool-cases (d == 0)) [
        | inl z ↦
            let t : f.start + k + d ≡ f.start + k = ground arith in
            let same = sym q ∙ ap (λ x. get_elem? f.arms (x % n)) (sym t) ∙ g in
            (w, subst (λ o. (poll_take (get_or o a) p w).2 ≡ pending) same c)
        | inr z ↦
            let f' = after_poll i b p f w in
            let e' = ap (λ x. x.2) (sym (round_step r k f p w b q c)) ∙ e in
            let ls = length-set f.arms i (poll_take b p w).1 in
            let t : f.start + suc k + (d - 1) ≡ f.start + k + d = ground arith in
            let ne : (f.start + k + d) % n ≢ i =
              mod_apart (f.start + k) d n (ground arith) (omega arith) in
            let g' = get_elem?-set_ne f.arms ((f.start + k + d) % n) i (poll_take b p w).1 ne ∙ g in
            rounds_pending r (suc k) f' p (poll_take b p w).0 (omega (arith, ls)) e' (d - 1) a
              (ground arith)
              (ap (λ x. get_elem? f'.arms (x % length f'.arms)) t
                ∙ ap (λ x. get_elem? f'.arms ((f.start + k + d) % x)) ls
                ∙ g')
      ]

  poll_rounds :
      (f : SelectFuture E) (p : ℕ) (w : World E)
      → (poll f p w).2 ≡ pending
      → (find_delivered 0 f.arms w ≡ none) × ((poll_arms (length f.arms) 0 f p w).2 ≡ pending)
  unfolding poll take_delivered
  poll_rounds f p w e = elim (Option-cases (find_delivered 0 f.arms w)) [
    | inl q ↦ (q, ground arith)
    | inr (i, q) ↦ absurd (ground arith)
  ]

  pub find_delivered-none :
      (j : ℕ) (arms : List (Arm E)) (w : World E)
      → find_delivered j arms w ≡ none
      → (i : ℕ) (a : Arm E) → get_elem? arms i ≡ some a
      → delivered a w ≡ false
  unfolding find_delivered
  find_delivered-none j [] w e i a g = cc
  find_delivered-none j (b ∷ bs) w e i a g = elim (Bool-cases (delivered b w)) [
    | inl q ↦ absurd (ground arith)
    | inr q ↦
        let e' : find_delivered (suc j) bs w ≡ none = ground arith in
        elim i as (λ i'. get_elem? (b ∷ bs) i' ≡ some a → delivered a w ≡ false) [
          | zero ↦ λ g'. ground arith
          | suc i' ↦ λ g'. find_delivered-none (suc j) bs w e' i' a g'
        ]
          g
  ]

  -- A poll of a select that stays pending has polled every case, wherever it started, and each of
  -- them was not ready at its poll; and no send case was delivered before.
  pub poll_pending :
      (f : SelectFuture E) (p : ℕ) (w : World E)
      → (poll f p w).2 ≡ pending
      → (i : ℕ) (a : Arm E) → get_elem? f.arms i ≡ some a
      → WasPolled a p × (delivered a w ≡ false)
  poll_pending f p w e i a g =
      let (none_yet, rounds) = poll_rounds f p w e in
      let l = get_elem?-lt f.arms i a g in
      let (k, m, q) = mod_covers f.start i (length f.arms) l in
      (
        rounds_pending (length f.arms) 0 f p w (omega arith) rounds k a m (
            ap (λ x. get_elem? f.arms ((x + k) % length f.arms)) (omega arith)
            ∙ ap (get_elem? f.arms) q
            ∙ g),
        find_delivered-none 0 f.arms w none_yet i a g,
      )
