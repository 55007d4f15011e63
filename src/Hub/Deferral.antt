-- ===== src/Hub/Deferral.antt =====
-- src/hub.rs: a cancel whose checks land in mlua's async poll chunk.
use native.Mathlib.Nat.{mod-lt, suc-mod, mod_self, mod-eq_of_lt, mul-le-mul_right}
use mlua_isle.Base.{
  ℕ, suc, ◌+◌, ◌-◌, ◌*◌, ◌%◌, ◌≡◌, ◌≤◌, ◌<◌, ◌⊎◌, refl, ap, ◌∙◌, Bool, true, false, ◌&&◌, List, [],
  ◌∷◌, arith, Bool-cases, inl, inr, length, if◌then◌else◌, ◌==◌, ltb, ltb→lt,
}
use mlua_isle.Hub.{Hub, count_check, check_cancel, max_deferred}

-- Counts of the hook while the current token is cancelled, each with whether it lands in the async
-- poll chunk and whether it is in a root; and whether one of them raises the cancel.
abbrev pub raises : ℕ → List (Bool × Bool) → Hub → Bool
raises k [] h = false
raises k ((p, r) ∷ ps) h =
    let (h', raised, yields) = count_check true p r k h in
    let later = raises k ps h' in if raised then true else later

next_mod :
    (n k : ℕ)
    → 1 ≤ k
    → ((suc (n % k) ≡ k) × (suc n % k ≡ 0)) ⊎ ((suc (n % k) < k) × (suc n % k ≡ suc (n % k)))
next_mod n k l =
    let b : n % k < k = mod-lt n l in
    elim (Bool-cases (ltb (suc (n % k)) k)) [
      | inl c ↦ let c' = ltb→lt (suc (n % k)) k c in inr (c', suc-mod n k ∙ mod-eq_of_lt c')
      | inr c ↦
          let e : suc (n % k) ≡ k = ground arith in
          inl (e, suc-mod n k ∙ ap (λ x. x % k) e ∙ mod_self k)
    ]

-- The hub after a count that raises nothing.
abbrev counted : Hub → ℕ → Hub
counted h deferred = record h { checks = suc h.checks; deferred = deferred }

count_between :
    (p r : Bool) (k : ℕ) (h : Hub)
    → suc h.checks < 4294967296
    → (suc h.checks % k == 0) ≡ false
    → ((count_check true p r k h).0 ≡ counted h h.deferred) × ((count_check true p r k h).1 ≡ false)
unfolding count_check
count_between p r k h w e =
    let c : (h.checks + 1) % 4294967296 ≡ suc h.checks = omega arith in
    (simp (c, e, count_check), simp (c, e, count_check))

count_at :
    (p r : Bool) (k : ℕ) (h : Hub)
    → suc h.checks < 4294967296
    → (suc h.checks % k == 0) ≡ true
    → ((count_check true p r k h).1 ≡ true)
      ⊎ ((h.deferred < 16)
          × ((count_check true p r k h).0 ≡ counted h (h.deferred + 1))
          × ((count_check true p r k h).1 ≡ false))
unfolding count_check check_cancel
count_at p r k h w e =
    let c : (h.checks + 1) % 4294967296 ≡ suc h.checks = omega arith in
    elim (Bool-cases (ltb h.deferred max_deferred && p)) [
      | inl q ↦ inr (
        ground arith,
        simp (c, e, q, count_check, check_cancel),
        simp (c, e, q, count_check, check_cancel),
      )
      | inr q ↦ inl (simp (c, e, q, count_check, check_cancel))
    ]

suc_mul : (n k : ℕ) → suc n * k ≡ k + n * k
suc_mul n k = omega arith

-- `g` more checks may be put off.
latency :
    (k g : ℕ) (ps : List (Bool × Bool)) (h : Hub)
    → 1 ≤ k
    → h.deferred + g ≡ 16
    → h.checks + length ps < 4294967296
    → (k - h.checks % k) + g * k ≤ length ps
    → raises k ps h ≡ true
latency k g [] h l d w e = let b : h.checks % k < k = mod-lt h.checks l in absurd (omega arith)
latency k g ((p, r) ∷ ps) h l d w e = elim (next_mod h.checks k l) [
  | inr (b, m) ↦
      let (s, t) = count_between p r k h (omega arith) (ground arith) in
      rw t (rw s (latency k g ps (counted h h.deferred) l d (omega arith) (omega arith)))
  | inl (b, m) ↦ elim (count_at p r k h (omega arith) (ground arith)) [
    | inl t ↦ rw t refl
    | inr (f, s, t) ↦
        let g' : g ≡ suc (g - 1) = omega arith in
        let q : g * k ≡ k + (g - 1) * k = ap (λ x. x * k) g' ∙ suc_mul (g - 1) k in
        rw t (
          rw s (
            latency k (g - 1) ps (counted h (h.deferred + 1)) l (omega arith) (omega arith)
              (omega arith)))
  ]
]

-- While the counter of the hook does not wrap, 17 times `cancel_every` counts of a hook with a
-- cancelled token raise the cancel, wherever they land.
pub cancel_latency :
    (k : ℕ) (ps : List (Bool × Bool)) (h : Hub)
    → 1 ≤ k
    → h.deferred ≤ max_deferred
    → h.checks + length ps < 4294967296
    → 17 * k ≤ length ps
    → raises k ps h ≡ true
cancel_latency k ps h l d w e =
    let m : (16 - h.deferred) * k ≤ 16 * k = mul-le-mul_right k (omega arith) in
    latency k (16 - h.deferred) ps h l (omega arith) w (omega arith)
