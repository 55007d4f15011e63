-- ===== src/Error/Traceback.antt =====
-- src/error.rs: the split of a message from the traceback that mlua appends.
use Prim.Native.String.{slice, find, len, ◌++◌}
use text.Mathlib.TextFind.{find_cases}
use text.Mathlib.TextPositions.{len-append, slice-append_left, slice-append_right}
use text.Mathlib.TextLemmas.{append_assoc}
use mlua_isle.Base.{
  suc, ◌+◌, ◌≡◌, ◌⊎◌, refl, sym, ap, ◌∙◌, subst, true, false, none, some, leb, String, arith, inl,
  inr,
}
use mlua_isle.Error.Convert.{split_traceback, marker}

abbrev traceback_of : String → String
traceback_of v = "stack traceback:" ++ v

-- A text of two parts, split after the first character of the second.
slice_after : (u t : String) → slice (u ++ ("\n" ++ t)) (len u + 1) (len (u ++ ("\n" ++ t))) ≡ t
slice_after u t =
    let w = u ++ "\n" in
    let m : len w ≡ len u + 1 = len-append u "\n" in
    let n : len (w ++ t) ≡ len w + len t = len-append w t in
    subst (λ x. slice x (len u + 1) (len x) ≡ t) (append_assoc u "\n" t)
      (subst (λ k. slice (w ++ t) k (len (w ++ t)) ≡ t) m
        (subst (λ k. slice (w ++ t) (len w) k ≡ t) (sym n) (slice-append_right w t)))

cut_marker : (v : String) → marker ++ v ≡ "\n" ++ traceback_of v
cut_marker v = append_assoc "\n" "stack traceback:" v

split_Hit :
    (u v : String)
    → find (u ++ (marker ++ v)) marker ≡ len u
    → split_traceback (u ++ (marker ++ v)) ≡ (u, some (traceback_of v))
unfolding split_traceback
split_Hit u v e =
    let msg = u ++ (marker ++ v) in
    let l : leb (find msg marker) (len msg) ≡ true =
      ground (arith, e, len-append u (marker ++ v)) in
    let a : slice msg 0 (len u) ≡ u = slice-append_left u (marker ++ v) in
    let b : slice msg (len u + 1) (len msg) ≡ traceback_of v =
      rw (cut_marker v) (slice_after u (traceback_of v)) in
    rw l (rw e (rw (a, b) refl))

whole : (msg : String) → find msg marker ≡ suc (len msg) → split_traceback msg ≡ (msg, none)
unfolding split_traceback
whole msg e = let l : leb (find msg marker) (len msg) ≡ false = ground (arith, e) in rw l refl

-- The message of an error is split at the first place where mlua's traceback starts: what stands before
-- is the message and what follows the line break is the traceback, and together they are the text; a
-- text without a traceback stays whole.
pub split_traceback_lem :
    (msg : String)
    → (split_traceback msg ≡ (msg, none))
      ⊎ ((u v : String) × (split_traceback msg ≡ (u, some ("stack traceback:" ++ v)))
          × (u ++ ("\n" ++ ("stack traceback:" ++ v)) ≡ msg))
unfolding split_traceback
split_traceback_lem msg = elim (find_cases msg marker) [
  | inr e ↦ inl (whole msg e)
  | inl (u, v, e, f) ↦ inr (
    u,
    v,
    subst (λ m. split_traceback m ≡ (u, some (traceback_of v))) (sym e)
        (split_Hit u v (subst (λ m. find m marker ≡ len u) e f)),
    ap (λ x. u ++ x) (sym (cut_marker v)) ∙ sym e,
  )
]
