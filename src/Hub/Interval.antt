-- ===== src/Hub/Interval.antt =====
-- src/hub.rs: how many instructions pass between two looks for a cancel.
use Prim.Native.Nat.{max, min}
use native.Mathlib.Nat.{mod-lt, div-add-mod}
use mlua_isle.Base.{
  ℕ, zero, suc, ◌+◌, ◌-◌, ◌*◌, ◌/◌, ◌%◌, ◌≡◌, ◌≤◌, ◌<◌, refl, List, [], ◌∷◌, some, arith,
  Option-cases, inl, inr,
}
use mlua_isle.Hub.{HookTriggers, Entry, Hub, add_triggers, merge, cancel_only, install}

-- No entry that counts wants a step shorter than `s`, unless it wants none.
abbrev pub AllAtLeast : ℕ → List Entry → Type 0
AllAtLeast s [] = Unit {0}
AllAtLeast s (e ∷ es) =
    ((n : ℕ) → e.triggers.every_nth_instruction ≡ some n → s ≤ max n 1) × AllAtLeast s es

merge_step :
    (t : HookTriggers) (es : List Entry) (n : ℕ)
    → t.every_nth_instruction ≡ some n
    → 1 ≤ n
    → (m : ℕ) × ((merge t es).every_nth_instruction ≡ some m) × (1 ≤ m) × (m ≤ n) × AllAtLeast m es
unfolding merge add_triggers
merge_step t [] n e l = (n, e, l, omega arith, tt)
merge_step t (x ∷ xs) n e l = elim (Option-cases x.triggers.every_nth_instruction) [
  | inl q ↦
      let (m, e', l', b, a) = merge_step (add_triggers t x.triggers) xs n (ground arith) l in
      (m, e', l', b, ((λ k r. ground arith), a))
  | inr (k, q) ↦
      let (m, e', l', b, a) =
        merge_step (add_triggers t x.triggers) xs (max (min n k) 1) (ground arith) (omega arith) in
      (m, e', l', omega arith, ((λ j r. ground arith), a))
]

ceil_lem :
    (s : ℕ) → 1 ≤ s → (1000 ≤ s * ((1000 + (s - 1)) / s)) × (s * ((1000 + (s - 1)) / s) < 1000 + s)
ceil_lem s l =
    let d = div-add-mod (1000 + (s - 1)) s in
    let m : (1000 + (s - 1)) % s < s = mod-lt (1000 + (s - 1)) (omega arith) in
    (omega (arith, d, m), omega (arith, d, m))

pos_lem : (s q : ℕ) → 1000 ≤ s * q → max q 1 ≡ q
pos_lem s zero h = absurd (omega arith)
pos_lem s (suc q) h = omega arith

-- The hook runs at each `step` instructions, at least one and at most 1000 and as often as each
-- registered callback wants; and a cancel is looked for at each `cancel_every` runs, which is never
-- more often than at each 1000 instructions and before `1000 + step` have passed.
pub install-interval :
    (h : Hub)
    → let (t, step, cancel_every) = install h in
      (1 ≤ step)
      × (step ≤ 1000)
      × AllAtLeast step h.entries
      × (1000 ≤ step * cancel_every)
      × (step * cancel_every < 1000 + step)
unfolding install
install-interval h =
    let (m, e, l, b, a) = merge_step cancel_only h.entries 1000 refl (omega arith) in
    let (low, high) = ceil_lem m l in
    rw e (rw (pos_lem m ((1000 + (m - 1)) / m) low) (l, b, a, low, high))
