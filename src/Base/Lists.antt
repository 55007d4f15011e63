-- ===== src/Base/Lists.antt =====
-- Lists measured by native numbers, and lists of addresses.
use Prim.Native.Nat.{ℕ, zero, suc, ◌+◌, ◌-◌}
use mathlib.Core.Path.{◌≡◌, refl, ap}
use mathlib.Core.List.{List, [], ◌∷◌, ◌++◌}
use mathlib.Core.Option.{Option, none, some}
use native.Mathlib.Omega.{arith}
use mlua_isle.Base.Tests.{if◌then◌else◌, ◌==◌}

module _ {ℓ} {A : Type ℓ} where
  abbrev pub length : List A → ℕ
  length [] = 0
  length (x ∷ xs) = suc (length xs)

  pub length-append : (xs ys : List A) → length (xs ++ ys) ≡ length xs + length ys
  length-append [] ys = omega arith
  length-append (x ∷ xs) ys = omega (arith, length-append xs ys)

  abbrev pub get_elem? : List A → ℕ → Option A
  get_elem? [] k = none
  get_elem? (x ∷ xs) zero = some x
  get_elem? (x ∷ xs) (suc k) = get_elem? xs k

  -- The list without the entry at a position.
  abbrev pub remove_at : List A → ℕ → List A
  remove_at [] k = []
  remove_at (x ∷ xs) zero = xs
  remove_at (x ∷ xs) (suc k) = x ∷ remove_at xs k

  -- A write out of bounds changes nothing.
  abbrev pub set : List A → ℕ → A → List A
  set [] k y = []
  set (x ∷ xs) zero y = y ∷ xs
  set (x ∷ xs) (suc k) y = x ∷ set xs k y

  pub length-set : (xs : List A) (k : ℕ) (y : A) → length (set xs k y) ≡ length xs
  length-set [] k y = refl
  length-set (x ∷ xs) zero y = refl
  length-set (x ∷ xs) (suc k) y = ap suc (length-set xs k y)

  pub length-remove_at :
      (xs : List A) (k : ℕ) (y : A)
      → get_elem? xs k ≡ some y
      → length xs ≡ suc (length (remove_at xs k))
  length-remove_at [] k y e = cc
  length-remove_at (x ∷ xs) zero y e = refl
  length-remove_at (x ∷ xs) (suc k) y e = ap suc (length-remove_at xs k y e)

-- How often an address stands in a list.
abbrev pub count : ℕ → List ℕ → ℕ
count a [] = 0
count a (x ∷ xs) = (if x == a then 1 else 0) + count a xs

-- How often an address stands in two lists together.
pub count-append : (b : ℕ) (ps qs : List ℕ) → count b (ps ++ qs) ≡ count b ps + count b qs
count-append b (p ∷ ps) qs = omega (arith, count-append b ps qs)
count-append b [] qs = omega arith

abbrev pub count_opt : ℕ → Option ℕ → ℕ
count_opt a none = 0
count_opt a (some x) = if x == a then 1 else 0

-- The list without its last entry.
abbrev pub init_last {ℓ} : {A : Type ℓ} → List A → List A
init_last [] = []
init_last (x ∷ []) = []
init_last (x ∷ y ∷ ys) = x ∷ init_last (y ∷ ys)

pub length-init_last {ℓ} : {A : Type ℓ} (xs : List A) → length (init_last xs) ≡ length xs - 1
length-init_last [] = omega arith
length-init_last (x ∷ []) = omega arith
length-init_last (x ∷ y ∷ ys) = omega (arith, length-init_last (y ∷ ys))
