-- ===== src/Cancel/Reach.antt =====
-- src/hook.rs: which tokens a cancel reaches.
use mathlib.Core.Path.{fun_ext}
use mlua_isle.Base.{
  ℕ, zero, suc, ◌+◌, ◌≡◌, ◌≤◌, ◌<◌, ◌⊎◌, refl, sym, ap, subst, true, List, [], ◌∷◌, ◌++◌, Option,
  some, count, arith, Bool-cases, inl, inr, ◌∙◌,
}
use mlua_isle.Cancel.{Tree, live, mark, each, cancel_in, cancel, is_cancelled}
use mlua_isle.Cancel.Linked.{
  IsLinked, LinkedBut, count-live, cancel_in-Visits, mark_next, mark-LinkedBut, Visits,
}
use mlua_isle.Tokio.{Notify}

-- `j` is `i` or comes from it by `child_token`.
pub data IsUnder (par : ℕ → Option ℕ) (i : ℕ) : ℕ → Type 0 where
  itself : IsUnder par i i
  below : {p : ℕ} (j : ℕ) → par j ≡ some p → IsUnder par i p → IsUnder par i j

IsUnder-trans :
    {par : ℕ → Option ℕ} {i k j : ℕ} → IsUnder par i k → IsUnder par k j → IsUnder par i j
IsUnder-trans a itself = a
IsUnder-trans a (below j e b) = below j e (IsUnder-trans a b)

module _ {N : Notify} where
  abbrev pub parents : Tree N → ℕ → Option ℕ
  parents t j = (t.node j).parent

  abbrev pub Grows : Tree N → Tree N → Type 0
  Grows t u = (parents u ≡ parents t) × ((j : ℕ) → (t.node j).flag ≡ true → (u.node j).flag ≡ true)

  pub mark-Grows : (i : ℕ) (t : Tree N) → Grows t (mark i t)
  unfolding mark
  mark-Grows i t = (fun_ext (λ j. ground arith), λ j e. ground arith)

  pub each-Grows :
      (g : ℕ → Tree N → Tree N)
      → ((c : ℕ) (t : Tree N) → Grows t (g c t))
      → (cs : List ℕ) (t : Tree N) → Grows t (each g cs t)
  each-Grows g k [] t = (refl, λ j e. e)
  each-Grows g k (c ∷ cs) t =
      let (p, f) = k c t in
      let (p', f') = each-Grows g k cs (g c t) in (p' ∙ p, λ j e. f' j (f j e))

  pub cancel_in-Grows : (fuel i : ℕ) (t : Tree N) → Grows t (cancel_in fuel i t)
  unfolding cancel_in
  cancel_in-Grows zero i t = (refl, λ j e. e)
  cancel_in-Grows (suc fuel) i t = elim (Bool-cases (t.node i).flag) [
    | inl e ↦ rw e (refl, λ j q. q)
    | inr e ↦
        let (p, f) = mark-Grows i t in
        let (p', f') =
          each-Grows (cancel_in fuel) (cancel_in-Grows fuel) (live t.alive (t.node i).children)
            (mark i t) in
        rw e (p' ∙ p, λ j q. f' j (f j q))
  ]

  mark_self : (i : ℕ) (t : Tree N) → ((mark i t).node i).flag ≡ true
  unfolding mark
  mark_self i t = ground arith

  pub cancel_in_self :
      (fuel i : ℕ) (t : Tree N) → 0 < fuel → ((cancel_in fuel i t).node i).flag ≡ true
  unfolding cancel_in
  cancel_in_self zero i t h = absurd (omega arith)
  cancel_in_self (suc fuel) i t h = elim (Bool-cases (t.node i).flag) [
    | inl e ↦ rw e e
    | inr e ↦ rw e (
        (each-Grows (cancel_in fuel) (cancel_in-Grows fuel) (live t.alive (t.node i).children)
            (mark i t)).1
          i (mark_self i t))
  ]

  -- In a linked tree every live descendant of a flagged node is flagged.
  linked_flags :
      (t : Tree N) (i j : ℕ)
      → IsLinked t
      → IsUnder (parents t) i j
      → (t.node i).flag ≡ true
      → t.alive j ≡ true
      → (t.node j).flag ≡ true
  linked_flags t i j h itself f a = f
  linked_flags t i j h (below {p} k e u) f a =
      ground (arith, h.flagged k p a e, linked_flags t i p h u f (h.held k p a e))

  pending_root : (i : ℕ) (t : Tree N) → IsLinked t → LinkedBut (i ∷ []) t
  pending_root i t h = record {
    flagged = λ j p a e f. ground (arith, h.flagged j p a e f);
    listed = h.listed;
    younger = h.younger;
    begot = h.begot;
    ordered = h.ordered;
    bounded = h.bounded;
    held = h.held;
  }

  -- A cancel keeps the tree linked.
  pub cancel-IsLinked :
      (i : ℕ) (t : Tree N)
      → i < t.next
      → IsLinked t
      → IsLinked (cancel i t) × ((cancel i t).next ≡ t.next) × ((cancel i t).alive ≡ t.alive)
  unfolding cancel
  cancel-IsLinked i t b h = cancel_in-Visits t.next i [] t b (omega arith) (pending_root i t h)

  -- In a linked tree a cancel of a token that was made cancels it and every live token that comes
  -- from it, however many generations down.
  pub cancel_reaches :
      (i j : ℕ) (t : Tree N)
      → IsLinked t
      → i < t.next
      → t.alive j ≡ true
      → IsUnder (parents t) i j
      → is_cancelled j (cancel i t) ≡ true
  unfolding is_cancelled cancel
  cancel_reaches i j t h b a u =
      let (h', n, al) = cancel-IsLinked i t b h in
      let (par, f) = cancel_in-Grows t.next i t in
      linked_flags (cancel i t) i j h' (subst (λ q. IsUnder q i j) (sym par) u)
        (cancel_in_self t.next i t (omega arith)) (ground (arith, a))

  -- What a visit of `c` flags is `c` or comes from it.
  abbrev Spares : (ℕ → Tree N → Tree N) → ℕ → Type 0
  Spares g fuel =
      (c : ℕ) (ps : List ℕ) (t : Tree N)
      → c < t.next
      → t.next ≤ c + fuel
      → LinkedBut (c ∷ ps) t
      → (j : ℕ) → ((g c t).node j).flag ≡ true
      → ((t.node j).flag ≡ true) ⊎ IsUnder (parents t) c j

  each-Spares :
      (g : ℕ → Tree N → Tree N) (fuel i : ℕ)
      → Visits g fuel
      → ((c : ℕ) (t : Tree N) → Grows t (g c t))
      → Spares g fuel
      → (cs ps : List ℕ) (t : Tree N)
      → ((c : ℕ) → 0 < count c cs → (c < t.next) × (t.next ≤ c + fuel) × (parents t c ≡ some i))
      → LinkedBut (cs ++ ps) t
      → (j : ℕ) → ((each g cs t).node j).flag ≡ true
      → ((t.node j).flag ≡ true) ⊎ IsUnder (parents t) i j
  each-Spares g fuel i v k s [] ps t b h j f = inl f
  each-Spares g fuel i v k s (c ∷ cs) ps t b h j f =
      let (x, y, z) = b c (ground arith) in
      let (h', n, a) = v c (cs ++ ps) t x y h in
      let par = (k c t).0 in
      elim (each-Spares g fuel i v k s cs ps (g c t)
        (λ d q.
          let (x', y', z') = b d (ground arith) in
          (omega (arith, n), omega (arith, n), ap (λ m. m d) par ∙ z'))
        h' j f) [
          | inr u ↦ inr (subst (λ q. IsUnder q i j) par u)
          | inl f' ↦ elim (s c (cs ++ ps) t x y h j f') [
            | inl f'' ↦ inl f''
            | inr u ↦ inr (IsUnder-trans (below c z itself) u)
          ]
        ]

  mark_other :
      (i j : ℕ) (t : Tree N) → ((mark i t).node j).flag ≡ true → ((t.node j).flag ≡ true) ⊎ (j ≡ i)
  unfolding mark
  mark_other i j t e = ground arith

  cancel_in-Spares : (fuel : ℕ) → Spares (cancel_in fuel) fuel
  unfolding cancel_in
  cancel_in-Spares zero c ps t l m h j f = inl f
  cancel_in-Spares (suc fuel) c ps t l m h j f = elim (Bool-cases (t.node c).flag) [
    | inl e ↦ ground (arith, e, f)
    | inr e ↦
        let cs = live t.alive (t.node c).children in
        let par = (mark-Grows c t).0 in
        elim (each-Spares (cancel_in fuel) fuel c (cancel_in-Visits fuel) (cancel_in-Grows fuel)
          (cancel_in-Spares fuel) cs ps (mark c t)
          (λ d q.
            let kin = (count-live t.alive d (t.node c).children).1 q in
            let (x, y) = h.younger d c kin in
            (
              omega (arith, mark_next c t),
              omega (arith, mark_next c t),
              ap (λ m. m d) par ∙ h.begot d c kin,
            ))
          (mark-LinkedBut c ps t e h) j (rw e at f)) [
            | inr u ↦ inr (subst (λ q. IsUnder q c j) par u)
            | inl f' ↦ elim (mark_other c j t f') [
              | inl f'' ↦ inl f''
              | inr q ↦ inr (subst (IsUnder (parents t) c) (sym q) itself)
            ]
          ]
  ]

  -- In a linked tree a token that is cancelled after a cancel of another that was made was cancelled
  -- before, is that token, or comes from it.
  pub cancel_spares :
      (i j : ℕ) (t : Tree N)
      → IsLinked t
      → i < t.next
      → is_cancelled j (cancel i t) ≡ true
      → (is_cancelled j t ≡ true) ⊎ IsUnder (parents t) i j
  unfolding is_cancelled cancel
  cancel_spares i j t h b f =
      cancel_in-Spares t.next i [] t b (omega arith) (pending_root i t h) j f
