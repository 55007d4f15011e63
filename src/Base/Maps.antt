-- ===== src/Base/Maps.antt =====
-- A heap of one kind of cell: a function from addresses, changed at one address at a time.
use Prim.Native.Nat.{ℕ}
use mathlib.Core.Path.{fun_ext, ◌≡◌}
use mathlib.Core.Logic.{◌≢◌}
use native.Mathlib.Omega.{arith}
use mlua_isle.Base.Tests.{if◌then◌else◌, ◌==◌}

module _ {ℓ} {A : Type ℓ} where
  abbrev pub update : (ℕ → A) → ℕ → A → ℕ → A
  update f k v j = if k == j then v else f j

  pub update_self : (f : ℕ → A) (k : ℕ) (v : A) → update f k v k ≡ v
  update_self f k v = ground arith

  pub update_ne : (f : ℕ → A) (k j : ℕ) (v : A) → k ≢ j → update f k v j ≡ f j
  update_ne f k j v h = ground arith

pub update_twice {ℓ} :
    {A : Type ℓ} (f : ℕ → A) (a : ℕ) (x y : A) → update (update f a x) a y ≡ update f a y
update_twice f a x y = fun_ext (λ b. ground arith)
