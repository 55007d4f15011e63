-- ===== src/Cancel/Trace.antt =====
-- src/hook.rs: the trees of tokens that a program can make.
use mlua_isle.Base.{
  ℕ, zero, suc, ◌≡◌, ◌<◌, Bool, true, false, ◌&&◌, List, [], ◌∷◌, Option, none, some, arith,
  Bool-cases, inl, inr, if◌then◌else◌, ◌==◌,
}
use mlua_isle.Cancel.{Tree, new_inner, new, alloc, child_token, cancel, release, enable}
use mlua_isle.Cancel.Linked.{IsLinked}
use mlua_isle.Cancel.Reach.{cancel-IsLinked}
use mlua_isle.Cancel.Children.{child_token-IsLinked}
use mlua_isle.Tokio.{Notify}

-- `makes`: `CancelToken::new`; `derives`: `child_token`; `waits`: a task registers with a token;
-- `drops`: the last handle of a token goes.
pub data TokenOp : Type 0 where
  makes : TokenOp
  derives cancels drops : ℕ → TokenOp
  waits : ℕ → ℕ → TokenOp

abbrev pub is_child : Option ℕ → ℕ → Bool
is_child none i = false
is_child (some p) i = p == i

module _ {N : Notify} where
  -- Whether one of the first `n` nodes is alive and holds node `i` as its parent.
  abbrev pub is_held : ℕ → ℕ → Tree N → Bool
  is_held zero i t = false
  is_held (suc n) i t = if t.alive n && is_child (t.node n).parent i then true else is_held n i t

  -- A call needs a live token, and a node lives on while a live child holds it.
  unfoldable pub exec : TokenOp → Tree N → Tree N
  unfolding new child_token release enable
  exec makes t = (new t).0
  exec (derives i) t = if t.alive i then (child_token i t).0 else t
  exec (cancels i) t = if t.alive i then cancel i t else t
  exec (waits i w) t = if t.alive i then enable i w t else t
  exec (drops i) t = if is_held t.next i t then t else release i t

  abbrev pub run : List TokenOp → Tree N → Tree N
  run [] t = t
  run (o ∷ os) t = run os (exec o t)

  abbrev pub no_tokens : Tree N
  no_tokens = record { node = λ i. new_inner none; alive = λ i. false; next = 0; woken = [] }

  not_held :
      (n i j : ℕ) (t : Tree N)
      → is_held n i t ≡ false
      → j < n
      → t.alive j ≡ true
      → (t.node j).parent ≡ some i
      → ⊥
  not_held zero i j t e l a p = omega arith
  not_held (suc n) i j t e l a p = elim (Bool-cases (j == n)) [
    | inl q ↦ let same : j ≡ n = ground arith in ground arith
    | inr q ↦ not_held n i j t (ground arith) (ground arith) a p
  ]

  new-IsLinked : (t : Tree N) → IsLinked t → IsLinked (new t).0
  unfolding new alloc new_inner
  new-IsLinked t h = record {
    flagged = λ j p a q f. ground (arith, h.flagged j p, h.held j p, h.bounded p);
    listed = λ j p a q f. ground (arith, h.listed j p, h.held j p, h.bounded p);
    younger = λ j p c. ground (arith, h.younger j p);
    begot = λ j p c. ground (arith, h.younger j p, h.begot j p);
    ordered = λ j p q. ground (arith, h.ordered j p);
    bounded = λ j a. ground (arith, h.bounded j);
    held = λ j p a q. ground (arith, h.held j p);
  }

  enable-IsLinked : (i w : ℕ) (t : Tree N) → IsLinked t → IsLinked (enable i w t)
  unfolding enable
  enable-IsLinked i w t h = record {
    flagged = λ j p a q f. ground (arith, h.flagged j p);
    listed = λ j p a q f. ground (arith, h.listed j p);
    younger = λ j p c. ground (arith, h.younger j p);
    begot = λ j p c. ground (arith, h.begot j p);
    ordered = λ j p q. ground (arith, h.ordered j p);
    bounded = h.bounded;
    held = λ j p a q. ground (arith, h.held j p);
  }

  release-IsLinked :
      (i : ℕ) (t : Tree N) → is_held t.next i t ≡ false → IsLinked t → IsLinked (release i t)
  unfolding release
  release-IsLinked i t e h = record {
    flagged = λ j p a q f. ground (arith, h.flagged j p);
    listed = λ j p a q f. ground (arith, h.listed j p);
    younger = h.younger;
    begot = h.begot;
    ordered = h.ordered;
    bounded = λ j a. ground (arith, h.bounded j);
    held = λ j p a q. ground (arith, h.held j p, h.bounded j, not_held t.next i j t e);
  }

  exec-IsLinked : (o : TokenOp) (t : Tree N) → IsLinked t → IsLinked (exec o t)
  unfolding exec
  exec-IsLinked makes t h = new-IsLinked t h
  exec-IsLinked (derives i) t h = elim (Bool-cases (t.alive i)) [
    | inl a ↦ rw a (child_token-IsLinked i t h a)
    | inr a ↦ rw a h
  ]
  exec-IsLinked (cancels i) t h = elim (Bool-cases (t.alive i)) [
    | inl a ↦ rw a (cancel-IsLinked i t (h.bounded i a) h).0
    | inr a ↦ rw a h
  ]
  exec-IsLinked (waits i w) t h = elim (Bool-cases (t.alive i)) [
    | inl a ↦ rw a (enable-IsLinked i w t h)
    | inr a ↦ rw a h
  ]
  exec-IsLinked (drops i) t h = elim (Bool-cases (is_held t.next i t)) [
    | inl a ↦ rw a h
    | inr a ↦ rw a (release-IsLinked i t a h)
  ]

  run_keeps : (os : List TokenOp) (t : Tree N) → IsLinked t → IsLinked (run os t)
  run_keeps [] t h = h
  run_keeps (o ∷ os) t h = run_keeps os (exec o t) (exec-IsLinked o t h)

  no_tokens-IsLinked : IsLinked no_tokens
  unfolding new_inner
  no_tokens-IsLinked = record {
    flagged = λ j p a q f. absurd cc;
    listed = λ j p a q f. absurd cc;
    younger = λ j p c. absurd (omega arith);
    begot = λ j p c. absurd (omega arith);
    ordered = λ j p q. absurd cc;
    bounded = λ j a. absurd cc;
    held = λ j p a q. absurd cc;
  }

  -- However tokens are made, derived, cancelled, awaited and dropped, the tree stays linked: a live
  -- token is listed with its parent, or is cancelled once the parent is; a parent of a live token is
  -- alive; a child is younger than its parent.
  pub run-IsLinked : (os : List TokenOp) → IsLinked (run os no_tokens)
  run-IsLinked os = run_keeps os no_tokens no_tokens-IsLinked
