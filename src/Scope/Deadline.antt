-- ===== src/Scope/Deadline.antt =====
-- src/scope.rs: the deadline that a scope takes, and those of the scopes above it.
use mlua_isle.Base.{
  ℕ, zero, suc, ◌+◌, ◌≡◌, ◌<◌, ◌≤◌, ◌⊎◌, refl, Bool, true, false, Option, none, some, leb, arith,
  inl, inr,
}
use mlua_isle.Tokio.{Notify}
use mlua_isle.Scope.{
  World, upgrade, earliest_from, ancestors_deadline, take_deadline, earlier, min_with,
}

abbrev pub at_most : Option ℕ → ℕ → Bool
at_most none d = false
at_most (some e) d = leb e d

earlier_lem :
    (found own : Option ℕ) (d : ℕ)
    → (at_most found d ≡ true → at_most (earlier found own) d ≡ true)
      × (own ≡ some d → at_most (earlier found own) d ≡ true)
      × (earlier found own ≡ some d → (found ≡ some d) ⊎ (own ≡ some d))
earlier_lem none none d = ground arith
earlier_lem none (some b) d = ground arith
earlier_lem (some a) none d = ground arith
earlier_lem (some a) (some b) d = ground arith

min_with_lem :
    (o : Option ℕ) (a d : ℕ)
    → (min_with o a ≤ a)
      × (at_most o d ≡ true → min_with o a ≤ d)
      × (min_with o a ≡ d → (d ≡ a) ⊎ (o ≡ some d))
min_with_lem none a d = ground arith
min_with_lem (some b) a d = ground arith

module _ {N : Notify} {V : Type 0} where
  -- `q` is `s` or a scope above it, with every scope on the way still there.
  pub data IsAbove (w : World N V) : ℕ → ℕ → Type 0 where
    same : {s : ℕ} → IsAbove w s s
    higher : {s p q : ℕ} → upgrade w (w.scope s).parent ≡ some p → IsAbove w p q → IsAbove w s q

  abbrev pub AreOlder : World N V → Type 0
  AreOlder w = (c p : ℕ) → c < w.next_scope → (w.scope c).parent ≡ some p → p < c

  abbrev Found : ℕ → Option ℕ → World N V → Type 0
  Found e next w = (s q : ℕ) × (next ≡ some s) × IsAbove w s q × ((w.scope q).deadline ≡ some e)

  earliest_from-Found :
      (fuel : ℕ) (next found : Option ℕ) (w : World N V) (e : ℕ)
      → earliest_from fuel next found w ≡ some e
      → (found ≡ some e) ⊎ Found e next w
  unfolding earliest_from
  earliest_from-Found zero next found w e q = inl q
  earliest_from-Found (suc fuel) none found w e q = inl q
  earliest_from-Found (suc fuel) (some s) found w e q =
      let own = (w.scope s).deadline in
      elim (earliest_from-Found fuel (upgrade w (w.scope s).parent) (earlier found own) w e q) [
        | inl f ↦ elim ((earlier_lem found own e).2 f) [
          | inl x ↦ inl x
          | inr x ↦ inr (s, s, refl, same, x)
        ]
        | inr (p, r, u, a, x) ↦ inr (s, r, refl, higher u a, x)
      ]

  -- When a scope takes its deadline, the deadline is its own grace from now or the deadline of a scope
  -- above it.
  pub deadline_taken :
      (i e : ℕ) (w : World N V)
      → ((take_deadline i w).scope i).deadline ≡ some e
      → (e ≡ w.now + (w.scope i).grace)
        ⊎ ((p q : ℕ) × (upgrade w (w.scope i).parent ≡ some p)
            × IsAbove w p q
            × ((w.scope q).deadline ≡ some e))
  unfolding take_deadline ancestors_deadline
  deadline_taken i e w h =
      let own = w.now + (w.scope i).grace in
      let next = upgrade w (w.scope i).parent in
      let r = ancestors_deadline i w in
      let q : min_with r own ≡ e = ground (arith, h) in
      elim ((min_with_lem r own e).2 q) [
        | inl x ↦ inl x
        | inr x ↦ elim (earliest_from-Found w.next_scope next none w e x) [
          | inl f ↦ absurd (ground (arith, f))
          | inr f ↦ inr f
        ]
      ]
