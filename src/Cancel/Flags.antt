-- ===== src/Cancel/Flags.antt =====
-- src/hook.rs: the tokens that are there stay, and so do their flags.
use mlua_isle.Base.{
  ℕ, zero, suc, ◌≡◌, ◌≤◌, ◌<◌, refl, ◌∙◌, true, Bool, List, [], ◌∷◌, Option, some, none, arith,
  Bool-cases, inl, inr,
}
use mlua_isle.Tokio.{Notify}
use mlua_isle.Cancel.{
  Tree, live, mark, each, cancel_in, cancel, child_token, new, alloc, new_inner, add_child, sweep,
  Inner,
}
use mlua_isle.Cancel.Reach.{cancel_in-Grows, cancel_in_self}

module _ {N : Notify} where
  -- No address goes, and no flag of an address in use.
  pub record IsLater (t u : Tree N) : Type 0 where
    pub longer : t.next ≤ u.next
    pub flagged : (j : ℕ) → j < t.next → (t.node j).flag ≡ true → (u.node j).flag ≡ true

  pub IsLater-trans : {t u v : Tree N} → IsLater t u → IsLater u v → IsLater t v
  IsLater-trans h k = record {
    longer = omega (arith, h.longer, k.longer);
    flagged = λ j l e. k.flagged j (omega (arith, l, h.longer)) (h.flagged j l e);
  }

  each_next :
      (g : ℕ → Tree N → Tree N)
      → ((c : ℕ) (t : Tree N) → (g c t).next ≡ t.next)
      → (cs : List ℕ) (t : Tree N) → (each g cs t).next ≡ t.next
  each_next g k [] t = refl
  each_next g k (c ∷ cs) t = each_next g k cs (g c t) ∙ k c t

  mark_next : (i : ℕ) (t : Tree N) → (mark i t).next ≡ t.next
  unfolding mark
  mark_next i t = refl

  cancel_in_next : (fuel i : ℕ) (t : Tree N) → (cancel_in fuel i t).next ≡ t.next
  unfolding cancel_in
  cancel_in_next zero i t = refl
  cancel_in_next (suc fuel) i t = elim (Bool-cases (t.node i).flag) [
    | inl e ↦ rw e refl
    | inr e ↦
        let cs = live t.alive (t.node i).children in
        rw e (each_next (cancel_in fuel) (cancel_in_next fuel) cs (mark i t) ∙ mark_next i t)
  ]

  pub cancel_next : (i : ℕ) (t : Tree N) → (cancel i t).next ≡ t.next
  unfolding cancel
  cancel_next i t = cancel_in_next t.next i t

  pub cancel-IsLater : (i : ℕ) (t : Tree N) → IsLater t (cancel i t)
  unfolding cancel
  cancel-IsLater i t = record {
    longer = omega (arith, cancel_in_next t.next i t);
    flagged = λ j l e. (cancel_in-Grows t.next i t).1 j e;
  }

  pub cancel_self : (i : ℕ) (t : Tree N) → i < t.next → ((cancel i t).node i).flag ≡ true
  unfolding cancel
  cancel_self i t l = cancel_in_self t.next i t (omega arith)

  alloc-IsLater :
      (o : Option ℕ) (t : Tree N) → IsLater t (alloc o t) × ((alloc o t).next ≡ suc t.next)
  unfolding alloc new_inner
  alloc-IsLater o t = (record { longer = omega arith; flagged = λ j l e. ground arith }, refl)

  pub new-IsLater : (t : Tree N) → IsLater t (new t).0
  unfolding new
  new-IsLater t = (alloc-IsLater none t).0

  sweep_flag : (alive : ℕ → Bool) (n : Inner N) → (sweep alive n).flag ≡ n.flag
  unfolding sweep
  sweep_flag alive n = ground arith

  add_child-IsLater :
      (i c : ℕ) (t : Tree N) → IsLater t (add_child i c t) × ((add_child i c t).next ≡ t.next)
  unfolding add_child
  add_child-IsLater i c t = (
    record {
      longer = omega arith;
      flagged = λ j l e. ground (arith, sweep_flag t.alive (t.node i));
    },
    refl,
  )

  -- The new token has the next address.
  pub child_token-IsLater :
      (i : ℕ) (t : Tree N)
      → IsLater t (child_token i t).0
        × ((child_token i t).1 ≡ t.next)
        × ((child_token i t).0.next ≡ suc t.next)
  unfolding child_token
  child_token-IsLater i t =
      let t' = alloc (some i) t in
      let (a, n) = alloc-IsLater (some i) t in
      let (b, m) = add_child-IsLater i t.next t' in
      elim (Bool-cases (t'.node i).flag) [
        | inl e ↦ rw e (IsLater-trans a (cancel-IsLater t.next t'), refl, cancel_next t.next t' ∙ n)
        | inr e ↦ rw e (IsLater-trans a b, refl, m ∙ n)
      ]
