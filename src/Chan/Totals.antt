-- ===== src/Chan/Totals.antt =====
-- Sums over the lists of addresses of a channel, and how the list operations change them.
use mlua_isle.Base.{
  ℕ, ◌+◌, ◌≡◌, ◌<◌, ◌≢◌, refl, Bool, true, List, [], ◌∷◌, ◌++◌, some, count, arith, if◌then◌else◌,
  ◌==◌, Bool-cases, inl, inr,
}
use mlua_isle.Chan.{find, remove_first, remove}

abbrev pub total : (ℕ → ℕ) → List ℕ → ℕ
total g [] = 0
total g (x ∷ xs) = g x + total g xs

pub total-append : (g : ℕ → ℕ) (xs ys : List ℕ) → total g (xs ++ ys) ≡ total g xs + total g ys
total-append g [] ys = omega arith
total-append g (x ∷ xs) ys = omega (arith, total-append g xs ys)

-- A change at an address that is not on the list.
pub total_off :
    (g h : ℕ → ℕ) (a : ℕ) (xs : List ℕ)
    → ((b : ℕ) → a ≢ b → h b ≡ g b)
    → count a xs ≡ 0
    → total h xs ≡ total g xs
total_off g h a [] e c = refl
total_off g h a (x ∷ xs) e c =
    let differs : a ≢ x = λ p. ground arith in ground (arith, e x differs, total_off g h a xs e)

-- A change at an address that is on the list once.
pub total_on :
    (g h : ℕ → ℕ) (a : ℕ) (xs : List ℕ)
    → ((b : ℕ) → a ≢ b → h b ≡ g b)
    → count a xs ≡ 1
    → total h xs + g a ≡ total g xs + h a
total_on g h a [] e c = cc
total_on g h a (x ∷ xs) e c = elim (Bool-cases (x == a)) [
  | inl q ↦ ground (arith, total_off g h a xs e)
  | inr q ↦
      let differs : a ≢ x = λ p. ground arith in ground (arith, e x differs, total_on g h a xs e)
]

-- What `find` finds is on the list, passes the test, and is what `remove_first` removes.
pub find_lem :
    (p : ℕ → Bool) (xs : List ℕ) (a : ℕ) → find p xs ≡ some a → (p a ≡ true) × (0 < count a xs)
find_lem p [] a e = cc
find_lem p (x ∷ xs) a e = elim (Bool-cases (p x)) [
  | inl q ↦ (ground arith, ground arith)
  | inr q ↦ ground (arith, find_lem p xs a)
]

pub total-remove_first :
    (g : ℕ → ℕ) (p : ℕ → Bool) (xs : List ℕ) (a : ℕ)
    → find p xs ≡ some a
    → total g xs ≡ g a + total g (remove_first p xs)
total-remove_first g p [] a e = cc
total-remove_first g p (x ∷ xs) a e = ground (arith, total-remove_first g p xs a)

pub count-remove_first :
    (b : ℕ) (p : ℕ → Bool) (xs : List ℕ) (a : ℕ)
    → find p xs ≡ some a
    → count b xs ≡ (if a == b then 1 else 0) + count b (remove_first p xs)
count-remove_first b p [] a e = cc
count-remove_first b p (x ∷ xs) a e = ground (arith, count-remove_first b p xs a)

pub count-remove :
    (b a : ℕ) (xs : List ℕ) → count b (remove a xs) ≡ (if a == b then 0 else count b xs)
count-remove b a [] = ground arith
count-remove b a (x ∷ xs) = ground (arith, count-remove b a xs)

pub remove_absent : (a : ℕ) (xs : List ℕ) → count a xs ≡ 0 → remove a xs ≡ xs
remove_absent a [] c = refl
remove_absent a (x ∷ xs) c = ground (arith, remove_absent a xs)

pub total-remove :
    (g : ℕ → ℕ) (a : ℕ) (xs : List ℕ) → count a xs ≡ 1 → total g xs ≡ g a + total g (remove a xs)
total-remove g a [] c = cc
total-remove g a (x ∷ xs) c = elim (Bool-cases (x == a)) [
  | inl q ↦ ground (arith, remove_absent a xs)
  | inr q ↦ ground (arith, total-remove g a xs)
]

pub total_ext : (g h : ℕ → ℕ) (xs : List ℕ) → ((b : ℕ) → h b ≡ g b) → total h xs ≡ total g xs
total_ext g h [] e = refl
total_ext g h (x ∷ xs) e = omega (arith, e x, total_ext g h xs e)
