-- ===== src/Cancel/Linked.antt =====
-- src/hook.rs: the walk of a cancel over the tree.
use mlua_isle.Base.{
  ℕ, zero, suc, ◌+◌, ◌≡◌, ◌≤◌, ◌<◌, ◌⊎◌, refl, Bool, true, false, List, [], ◌∷◌, ◌++◌, some, count,
  count-append, arith, Bool-cases, inl, inr, ◌∙◌,
}
use mlua_isle.Cancel.{Tree, live, mark, each, cancel_in}
use mlua_isle.Tokio.{Notify}

pub count-live :
    (alive : ℕ → Bool) (j : ℕ) (cs : List ℕ)
    → (alive j ≡ true → count j (live alive cs) ≡ count j cs)
      × (0 < count j (live alive cs) → 0 < count j cs)
count-live alive j [] = ground arith
count-live alive j (c ∷ cs) = ground (arith, count-live alive j cs)

module _ {N : Notify} where
  -- `ps` are the nodes that a cancel has still to visit. A live child of a flagged node is flagged or
  -- among them, one of another node is on its list, and a child is younger than its parent.
  pub record LinkedBut (ps : List ℕ) (t : Tree N) : Type 0 where
    pub flagged :
        (j p : ℕ)
        → t.alive j ≡ true
        → (t.node j).parent ≡ some p
        → (t.node p).flag ≡ true
        → ((t.node j).flag ≡ true) ⊎ (0 < count j ps)
    pub listed :
        (j p : ℕ)
        → t.alive j ≡ true
        → (t.node j).parent ≡ some p
        → (t.node p).flag ≡ false
        → 0 < count j (t.node p).children
    pub younger : (j p : ℕ) → 0 < count j (t.node p).children → (p < j) × (j < t.next)
    pub begot : (j p : ℕ) → 0 < count j (t.node p).children → (t.node j).parent ≡ some p
    pub ordered : (j p : ℕ) → (t.node j).parent ≡ some p → p < j
    pub bounded : (j : ℕ) → t.alive j ≡ true → j < t.next
    pub held : (j p : ℕ) → t.alive j ≡ true → (t.node j).parent ≡ some p → t.alive p ≡ true

  abbrev pub IsLinked : Tree N → Type 0
  IsLinked = LinkedBut []

  pub mark-LinkedBut :
      (i : ℕ) (ps : List ℕ) (t : Tree N)
      → (t.node i).flag ≡ false
      → LinkedBut (i ∷ ps) t
      → LinkedBut (live t.alive (t.node i).children ++ ps) (mark i t)
  unfolding mark
  mark-LinkedBut i ps t e h =
      let cs = live t.alive (t.node i).children in
      record {
        flagged = λ j p a q f. ground (
          arith,
          h.flagged j p a,
          h.listed j p a,
          count-live t.alive j (t.node i).children,
          count-append j cs ps,
        );
        listed = λ j p a q f. ground (arith, h.listed j p a);
        younger = λ j p c. ground (arith, h.younger j p);
        begot = λ j p c. ground (arith, h.begot j p);
        ordered = λ j p q. ground (arith, h.ordered j p);
        bounded = h.bounded;
        held = λ j p a q. ground (arith, h.held j p a);
      }

  skip-LinkedBut :
      (i : ℕ) (ps : List ℕ) (t : Tree N)
      → (t.node i).flag ≡ true
      → LinkedBut (i ∷ ps) t
      → LinkedBut ps t
  skip-LinkedBut i ps t e h = record {
    flagged = λ j p a q f. ground (arith, h.flagged j p a q f);
    listed = h.listed;
    younger = h.younger;
    begot = h.begot;
    ordered = h.ordered;
    bounded = h.bounded;
    held = h.held;
  }

  -- What a cancel of one node from its list of nodes to visit does to the tree.
  abbrev pub Visits : (ℕ → Tree N → Tree N) → ℕ → Type 0
  Visits g fuel =
      (c : ℕ) (ps : List ℕ) (t : Tree N)
      → c < t.next
      → t.next ≤ c + fuel
      → LinkedBut (c ∷ ps) t
      → LinkedBut ps (g c t) × ((g c t).next ≡ t.next) × ((g c t).alive ≡ t.alive)

  each-LinkedBut :
      (g : ℕ → Tree N → Tree N) (fuel : ℕ)
      → Visits g fuel
      → (cs ps : List ℕ) (t : Tree N)
      → ((c : ℕ) → 0 < count c cs → (c < t.next) × (t.next ≤ c + fuel))
      → LinkedBut (cs ++ ps) t
      → LinkedBut ps (each g cs t) × ((each g cs t).next ≡ t.next) × ((each g cs t).alive ≡ t.alive)
  each-LinkedBut g fuel v [] ps t b h = (h, refl, refl)
  each-LinkedBut g fuel v (c ∷ cs) ps t b h =
      let (x, y) = b c (ground arith) in
      let (h', n, a) = v c (cs ++ ps) t x y h in
      let (h'', n', a') = each-LinkedBut g fuel v cs ps (g c t) (λ d q. ground (arith, b d)) h' in
      (h'', n' ∙ n, a' ∙ a)

  pub mark_next : (i : ℕ) (t : Tree N) → (mark i t).next ≡ t.next
  unfolding mark
  mark_next i t = refl

  pub mark_alive : (i : ℕ) (t : Tree N) → (mark i t).alive ≡ t.alive
  unfolding mark
  mark_alive i t = refl

  pub cancel_in-Visits : (fuel : ℕ) → Visits (cancel_in fuel) fuel
  unfolding cancel_in
  cancel_in-Visits zero c ps t l m h = absurd (omega arith)
  cancel_in-Visits (suc fuel) c ps t l m h = elim (Bool-cases (t.node c).flag) [
    | inl e ↦ rw e (skip-LinkedBut c ps t e h, refl, refl)
    | inr e ↦ rw e (
        each-LinkedBut (cancel_in fuel) fuel (cancel_in-Visits fuel)
          (live t.alive (t.node c).children) ps (mark c t)
          (λ d q.
            ground (arith, count-live t.alive d (t.node c).children, h.younger d c, mark_next c t))
          (mark-LinkedBut c ps t e h))
  ]
