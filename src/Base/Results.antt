-- ===== src/Base/Results.antt =====
-- The result of a fallible operation, and of one poll of a future.
pub data Result {ℓ κ} (A : Type ℓ) (E : Type κ) : Type (ℓ ⊔ κ) where
  ok : A → Result A E
  err : E → Result A E

pub data Poll {ℓ} (A : Type ℓ) : Type ℓ where
  ready : A → Poll A
  pending : Poll A

abbrev pub map_poll {ℓ κ} : {A : Type ℓ} {B : Type κ} → (A → B) → Poll A → Poll B
map_poll f (ready a) = ready (f a)
map_poll f pending = pending
