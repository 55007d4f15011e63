-- ===== src/Cancel/Children.antt =====
-- src/hook.rs: child tokens, and the sweeps of a list of children.
use Prim.Native.Nat.{max}
use mlua_isle.Base.{
  ℕ, ◌*◌, ◌≡◌, ◌≤◌, ◌<◌, sym, ap, Bool, true, false, [], ◌∷◌, ◌++◌, some, length, length-append,
  update, count, count-append, arith, Bool-cases, inl, inr, ◌∙◌,
}
use mlua_isle.Cancel.{Tree, Inner, live, cancel, is_cancelled, alloc, sweep, add_child, child_token}
use mlua_isle.Cancel.Linked.{IsLinked, LinkedBut, count-live, cancel_in-Visits}
use mlua_isle.Cancel.Reach.{parents, cancel_in_self, cancel_in-Grows}
use mlua_isle.Tokio.{Notify}

module _ {N : Notify} where
  count-sweep :
      (alive : ℕ → Bool) (j : ℕ) (n : Inner N)
      → (alive j ≡ true → count j (sweep alive n).children ≡ count j n.children)
        × (0 < count j (sweep alive n).children → 0 < count j n.children)
        × ((sweep alive n).flag ≡ n.flag)
        × ((sweep alive n).parent ≡ n.parent)
  unfolding sweep
  count-sweep alive j n = ground (arith, count-live alive j n.children)

  -- A new node, for a parent that is cancelled: it is still to be cancelled itself.
  alloc-LinkedBut :
      (i : ℕ) (t : Tree N)
      → IsLinked t
      → t.alive i ≡ true
      → (t.node i).flag ≡ true
      → LinkedBut (t.next ∷ []) (alloc (some i) t)
  unfolding alloc
  alloc-LinkedBut i t h a f =
      let b = h.bounded i a in
      record {
        flagged = λ j p l e g. ground (arith, h.flagged j p, h.ordered j p, h.bounded j);
        listed = λ j p l e g. ground (arith, h.listed j p, h.ordered j p, h.bounded j);
        younger = λ j p c. ground (arith, h.younger j p);
        begot = λ j p c. ground (arith, h.begot j p, h.younger j p);
        ordered = λ j p e. ground (arith, h.ordered j p);
        bounded = λ j l. ground (arith, h.bounded j);
        held = λ j p l e. ground (arith, h.held j p, h.ordered j p, h.bounded j);
      }

  -- A new node, on the list of a parent that is not cancelled.
  add_child-IsLinked :
      (i : ℕ) (t : Tree N)
      → IsLinked t
      → t.alive i ≡ true
      → (t.node i).flag ≡ false
      → IsLinked (add_child i t.next (alloc (some i) t))
  unfolding alloc add_child
  add_child-IsLinked i t h a f =
      let b = h.bounded i a in
      let al = update t.alive t.next true in
      let s = λ (j : ℕ). count-sweep al j (t.node i) in
      let m = λ (j : ℕ). count-append j (sweep al (t.node i)).children (t.next ∷ []) in
      record {
        flagged = λ j p l e g. ground (arith, h.flagged j p, h.ordered j p, h.bounded j, s j, m j);
        listed = λ j p l e g. ground (arith, h.listed j p, h.ordered j p, h.bounded j, s j, m j);
        younger = λ j p c. ground (arith, h.younger j p, s j, m j);
        begot = λ j p c. ground (arith, h.begot j p, h.younger j p, s j, m j);
        ordered = λ j p e. ground (arith, h.ordered j p, s j);
        bounded = λ j l. ground (arith, h.bounded j);
        held = λ j p l e. ground (arith, h.held j p, h.ordered j p, h.bounded j, s j);
      }

  alloc-keeps : (i : ℕ) (t : Tree N) → i < t.next → (alloc (some i) t).node i ≡ t.node i
  unfolding alloc
  alloc-keeps i t b = ground arith

  fresh_is_used : (i : ℕ) (t : Tree N) → t.next < (alloc (some i) t).next
  unfolding alloc
  fresh_is_used i t = omega arith

  fresh_room : (i : ℕ) (t : Tree N) → 0 < (alloc (some i) t).next
  unfolding alloc
  fresh_room i t = omega arith

  alloc_parent : (i : ℕ) (t : Tree N) → parents (alloc (some i) t) t.next ≡ some i
  unfolding alloc
  alloc_parent i t = ground arith

  added_flag :
      (i : ℕ) (t : Tree N)
      → i < t.next
      → ((add_child i t.next (alloc (some i) t)).node t.next).flag ≡ false
  unfolding add_child alloc
  added_flag i t b = ground arith

  added_parent :
      (i : ℕ) (t : Tree N)
      → i < t.next
      → parents (add_child i t.next (alloc (some i) t)) t.next ≡ some i
  unfolding add_child alloc
  added_parent i t b = ground arith

  -- A child token of a live token keeps the tree linked.
  pub child_token-IsLinked :
      (i : ℕ) (t : Tree N) → IsLinked t → t.alive i ≡ true → IsLinked (child_token i t).0
  unfolding child_token cancel
  child_token-IsLinked i t h a = elim (Bool-cases (t.node i).flag) [
    | inl f ↦
        let same = ap (λ n. n.flag) (alloc-keeps i t (h.bounded i a)) in
        rw (same ∙ f)
          (cancel_in-Visits (alloc (some i) t).next t.next [] (alloc (some i) t) (fresh_is_used i t)
            (omega arith) (alloc-LinkedBut i t h a f)).0
    | inr f ↦
        let same = ap (λ n. n.flag) (alloc-keeps i t (h.bounded i a)) in
        rw (same ∙ f) (add_child-IsLinked i t h a f)
  ]

  -- In a linked tree a child token of a live token is cancelled from the start exactly when its
  -- parent is, and is its parent's child.
  pub child_token_lem :
      (i : ℕ) (t : Tree N)
      → IsLinked t
      → t.alive i ≡ true
      → let (u, c) = child_token i t in
        (is_cancelled c u ≡ is_cancelled i t) × (parents u c ≡ some i)
  unfolding child_token is_cancelled cancel
  child_token_lem i t h a =
      let same = ap (λ n. n.flag) (alloc-keeps i t (h.bounded i a)) in
      elim (Bool-cases (t.node i).flag) [
        | inl f ↦
            let u = alloc (some i) t in
            rw (same ∙ f) (
              cancel_in_self u.next t.next u (fresh_room i t) ∙ sym f,
              ap (λ m. m t.next) (cancel_in-Grows u.next t.next u).0 ∙ alloc_parent i t,
            )
        | inr f ↦
            rw (same ∙ f) (added_flag i t (h.bounded i a) ∙ sym f, added_parent i t (h.bounded i a))
      ]

  -- Where at most `most` children of a node are alive and its next sweep comes no later than at twice
  -- `most` children, or 16: after the sweep that comes before a new child and with that child, the
  -- list is no longer than the next sweep, which again comes no later than that.
  pub children_short :
      (alive : ℕ → Bool) (n : Inner N) (c most : ℕ)
      → length (live alive n.children) ≤ most
      → n.sweep_at ≤ max (most * 2) 16
      → let m = sweep alive n in
        (length (m.children ++ c ∷ []) ≤ m.sweep_at) × (m.sweep_at ≤ max (most * 2) 16)
  unfolding sweep
  children_short alive n c most l s =
      ground
        (arith, length-append n.children (c ∷ []), length-append (live alive n.children) (c ∷ []))
