-- ===== src/Pool/Checkout.antt =====
-- src/pool.rs: what a checkout answers.
use mlua_isle.Base.{
  ℕ, ◌≡◌, ◌≤◌, ◌<◌, ◌⊎◌, refl, Bool, true, false, List, [], ◌∷◌, ◌++◌, Option, none, some,
  if◌then◌else◌, Bool-cases, ap, sym, subst, inl, inr, arith, ltb, ltb→lt,
}
use mlua_isle.Error.{IsleError}
use mlua_isle.Pool.{
  IslePool, Attempt, got, spawns, sleeps, nothing, fails, take_alive_isle, try_acquire, checkout,
}
use mlua_isle.Pool.Capacity.{take_alive_isle-rest}

abbrev pub AllDead : (ℕ → Bool) → List ℕ → Type 0
AllDead alive [] = Unit {0}
AllDead alive (i ∷ is) = (alive i ≡ false) × AllDead alive is

-- What the search of the idle list finds: the newest isle that is alive, or that none is.
abbrev pub Finds : (ℕ → Bool) → List ℕ → Option ℕ → Type 0
Finds alive is none = AllDead alive is
Finds alive is (some i) =
    (newer : List ℕ) × (older : List ℕ) × (is ≡ newer ++ i ∷ older)
    × AllDead alive newer
    × (alive i ≡ true)

Finds-cons :
    (alive : ℕ → Bool) (i : ℕ) (is : List ℕ) (o : Option ℕ)
    → alive i ≡ false
    → Finds alive is o
    → Finds alive (i ∷ is) o
Finds-cons alive i is none e d = (e, d)
Finds-cons alive i is (some j) e (newer, older, s, d, l) =
    (i ∷ newer, older, ap (◌∷◌ i) s, (e, d), l)

take_alive_isle-Finds :
    (alive : ℕ → Bool) (is : List ℕ) → Finds alive is (take_alive_isle alive is).isle
unfolding take_alive_isle
take_alive_isle-Finds alive [] = tt
take_alive_isle-Finds alive (i ∷ is) = elim (Bool-cases (alive i)) [
  | inl e ↦ rw e ([], is, refl, tt, e)
  | inr e ↦ rw e (Finds-cons alive i is _ e (take_alive_isle-Finds alive is))
]

-- What an answer of a checkout says of the pool that it was asked of.
abbrev pub Answers : (ℕ → Bool) → IslePool → Attempt → Type 0
Answers alive p (got i) = (p.poisoned ≡ false) × (p.closed ≡ false) × Finds alive p.idle (some i)
Answers alive p spawns =
    (p.poisoned ≡ false) × (p.closed ≡ false) × AllDead alive p.idle × (p.active < p.max_size)
Answers alive p sleeps =
    (p.poisoned ≡ false) × (p.closed ≡ false) × AllDead alive p.idle × (p.max_size ≤ p.active)
Answers alive p nothing = ⊥
Answers alive p (fails e) =
    (p.poisoned ≡ true) ⊎ ((p.poisoned ≡ false) × (p.closed ≡ true) × (e ≡ IsleError.shutdown))

abbrev poison : IsleError
poison = IsleError.pool_poisoned "poisoned lock: another task failed inside"

module _ (alive : ℕ → Bool) (p : IslePool) where
  checkout-poisoned : p.poisoned ≡ true → (checkout alive p).1 ≡ fails poison
  unfolding checkout
  checkout-poisoned e = ground arith

  checkout-closed :
      p.poisoned ≡ false → p.closed ≡ true → (checkout alive p).1 ≡ fails IsleError.shutdown
  unfolding checkout
  checkout-closed e c = ground arith

  checkout-found :
      (i : ℕ)
      → p.poisoned ≡ false
      → p.closed ≡ false
      → (take_alive_isle alive p.idle).isle ≡ some i
      → (checkout alive p).1 ≡ got i
  unfolding checkout try_acquire
  checkout-found i e c f = ground arith

  checkout-missed :
      p.poisoned ≡ false
      → p.closed ≡ false
      → (take_alive_isle alive p.idle).isle ≡ none
      → (checkout alive p).1 ≡ (if ltb p.active p.max_size then spawns else sleeps)
  unfolding checkout try_acquire
  checkout-missed e c f = ground (arith, take_alive_isle-rest alive p.idle)

  -- With no live isle idle.
  missed-Answers :
      p.poisoned ≡ false
      → p.closed ≡ false
      → AllDead alive p.idle
      → Answers alive p (if ltb p.active p.max_size then spawns else sleeps)
  missed-Answers e c d = elim (Bool-cases (ltb p.active p.max_size)) [
    | inl l ↦
        subst (λ b. Answers alive p (if b then spawns else sleeps)) (sym l) (e, c, d, ltb→lt _ _ l)
    | inr l ↦
        subst (λ b. Answers alive p (if b then spawns else sleeps)) (sym l) (e, c, d, ground arith)
  ]

  open_pool-Answers :
      (o : Option ℕ)
      → (take_alive_isle alive p.idle).isle ≡ o
      → Finds alive p.idle o
      → p.poisoned ≡ false
      → p.closed ≡ false
      → Answers alive p (checkout alive p).1
  open_pool-Answers none f d e c =
      subst (Answers alive p) (sym (checkout-missed e c f)) (missed-Answers e c d)
  open_pool-Answers (some i) f d e c =
      subst (Answers alive p) (sym (checkout-found i e c f)) (e, c, d)

  -- `checkout` takes the newest idle isle that is alive; without one it spawns if fewer than
  -- `max_size` isles are out, else it waits; it fails in a poisoned pool and, with `shutdown`, in a
  -- closed one, and in no other.
  pub checkout-Answers : Answers alive p (checkout alive p).1
  checkout-Answers = elim (Bool-cases p.poisoned) [
    | inl e ↦ subst (Answers alive p) (sym (checkout-poisoned e)) (inl e)
    | inr e ↦ elim (Bool-cases p.closed) [
      | inl c ↦ subst (Answers alive p) (sym (checkout-closed e c)) (inr (e, c, refl))
      | inr c ↦ open_pool-Answers _ refl (take_alive_isle-Finds alive p.idle) e c
    ]
  ]
