-- ===== src/Select/Choices.antt =====
-- src/select.rs and src/task_lib.rs: what the reading of the cases gives to the select.
use mlua_isle.Base.{
  String, ℕ, zero, suc, ◌≡◌, ◌<◌, ◌⊎◌, refl, Bool, true, false, List, [], ◌∷◌, Option, none, some,
  sym, ap, ◌∙◌, Result, ok, err, ready, if◌then◌else◌, length, get_elem?, arith, inl, inr,
}
use mlua_isle.Tokio.{Env}
use mlua_isle.Hub.{Hub}
use mlua_isle.Select.{World, Arm, SelectFuture, Values, poll}
use mlua_isle.Select.Chosen.{poll-HasChosen}
use mlua_isle.Select.Cases.{
  Cases, Entry, not_case, case_table, Field, nil_field, other_field, boolean_field, function_field,
  Opts, DefaultCase, no_default, raw_default, handler_default, read_case, read_handler, read_arms,
  read_opts, read_cases, with_start, cons_case, new_mark,
}

-- A select may have no case only if it has a default.
abbrev pub is_default : DefaultCase → Bool
is_default no_default = false
is_default raw_default = true
is_default (handler_default f) = true

-- One handler for each case, or none in the raw form.
abbrev pub AreMatched : {E : Env} → Bool → List (Arm E) → List ℕ → Type 0
AreMatched handlers arms hs = length hs ≡ (if handlers then length arms else 0)

-- What the cases of a select are, once they are read.
pub record IsRead {E : Env} (handlers : Bool) (c : Cases E) : Type 0 where
  pub matched : AreMatched handlers c.arms c.handlers
  pub starts : (c.start < length c.arms) ⊎ ((length c.arms ≡ 0) × (is_default c.default ≡ true))

Result-cases : {A B : Type 0} (r : Result A B) → ((a : A) × (r ≡ ok a)) ⊎ ((b : B) × (r ≡ err b))
Result-cases (ok a) = inl (a, refl)
Result-cases (err b) = inr (b, refl)

-- The field `handler` of the case at a position.
abbrev pub handler_at : {E : Env} → List (Entry E) → ℕ → Option Field
handler_at [] i = none
handler_at (not_case ∷ es) zero = none
handler_at (case_table c ∷ es) zero = some c.handler
handler_at (e ∷ es) (suc i) = handler_at es i

module _ (E : Env) (show : ℕ → String) (name : String) where
  handler_lem :
      (handlers : Bool) (n : ℕ) (f : Field) (a : Arm E) (fs : List ℕ)
      (rest : Result (List (Arm E) × List ℕ) E.Failure) (read : List (Arm E) × List ℕ)
      → read_handler E show name handlers n f ≡ ok fs
      → ((r : List (Arm E) × List ℕ) → rest ≡ ok r → AreMatched handlers r.0 r.1)
      → cons_case E show name a (ok fs) rest ≡ ok read
      → AreMatched handlers read.0 read.1
  unfolding read_handler
  handler_lem handlers n f a fs (err x) read q h e = absurd (ground (arith, e))
  handler_lem false n f a [] (ok (arms, hs)) read q h e = ground (arith, e, h (arms, hs) refl)
  handler_lem false n f a (x ∷ fs) (ok r) read q h e = absurd (ground (arith, q))
  handler_lem true n (function_field g) a [] (ok r) read q h e = absurd (ground (arith, q))
  handler_lem true n (function_field g) a (x ∷ fs) (ok (arms, hs)) read q h e =
      ground (arith, e, h (arms, hs) refl)
  handler_lem true n nil_field a fs (ok r) read q h e = absurd (ground (arith, q))
  handler_lem true n other_field a fs (ok r) read q h e = absurd (ground (arith, q))
  handler_lem true n (boolean_field b) a fs (ok r) read q h e = absurd (ground (arith, q))

  read_arms_lem :
      (handlers : Bool) (n : ℕ) (es : List (Entry E)) (mark : ℕ) (w : World E)
      (read : List (Arm E) × List ℕ)
      → read_arms E show name handlers n es mark w ≡ ok read
      → AreMatched handlers read.0 read.1
  unfolding read_arms
  read_arms_lem true n [] mark w read e = ground (arith, e)
  read_arms_lem false n [] mark w read e = ground (arith, e)
  read_arms_lem handlers n (not_case ∷ es) mark w read e = absurd (ground (arith, e))
  read_arms_lem handlers n (case_table c ∷ es) mark w read e =
      let rest = read_arms E show name handlers (suc n) es mark w in
      elim (Result-cases (read_case E show name n c mark w)) [
        | inr (x, q) ↦ absurd (ground (arith, e, q))
        | inl (a, q) ↦ elim (Result-cases (read_handler E show name handlers n c.handler)) [
          | inr (x, g) ↦ absurd (ground (arith, e, q, g))
          | inl (fs, g) ↦
              let k : cons_case E show name a (ok fs) rest ≡ ok read = ground (arith, e, q, g) in
              handler_lem handlers n c.handler a fs rest read g
                (λ r x. read_arms_lem handlers (suc n) es mark w r x) k
        ]
      ]

  read_handler_lem :
      (n : ℕ) (f : Field) (fs : List ℕ)
      → read_handler E show name true n f ≡ ok fs
      → (x : ℕ) × (f ≡ function_field x) × (fs ≡ x ∷ [])
  unfolding read_handler
  read_handler_lem n (function_field x) fs e = (x, refl, ground (arith, e))
  read_handler_lem n nil_field fs e = absurd (ground (arith, e))
  read_handler_lem n other_field fs e = absurd (ground (arith, e))
  read_handler_lem n (boolean_field b) fs e = absurd (ground (arith, e))

  cons_case_lem :
      (a : Arm E) (x : ℕ) (rest : Result (List (Arm E) × List ℕ) E.Failure)
      (read : List (Arm E) × List ℕ)
      → cons_case E show name a (ok (x ∷ [])) rest ≡ ok read
      → (r : List (Arm E) × List ℕ) × (rest ≡ ok r) × (read.1 ≡ x ∷ r.1)
  cons_case_lem a x (err y) read e = absurd (ground (arith, e))
  cons_case_lem a x (ok r) read e = (r, refl, ground (arith, e))

  -- The handlers that were read are those of the cases, in their order.
  read_arms-handler_at :
      (n : ℕ) (es : List (Entry E)) (mark : ℕ) (w : World E) (read : List (Arm E) × List ℕ)
      → read_arms E show name true n es mark w ≡ ok read
      → (i x : ℕ) → get_elem? read.1 i ≡ some x
      → handler_at es i ≡ some (function_field x)
  unfolding read_arms
  read_arms-handler_at n [] mark w read e i x g = absurd (ground (arith, e, g))
  read_arms-handler_at n (not_case ∷ es) mark w read e i x g = absurd (ground (arith, e))
  read_arms-handler_at n (case_table c ∷ es) mark w read e i x g =
      let rest = read_arms E show name true (suc n) es mark w in
      elim (Result-cases (read_case E show name n c mark w)) [
        | inr (y, q) ↦ absurd (ground (arith, e, q))
        | inl (a, q) ↦ elim (Result-cases (read_handler E show name true n c.handler)) [
          | inr (y, f) ↦ absurd (ground (arith, e, q, f))
          | inl (fs, f) ↦
              let (y, m, l) = read_handler_lem n c.handler fs f in
              let k : cons_case E show name a (ok (y ∷ [])) rest ≡ ok read =
                ground (arith, e, q, f, l) in
              let (r, s, t) = cons_case_lem a y rest read k in
              elim i
                  as (λ j.
                    get_elem? read.1 j ≡ some x
                    → handler_at (case_table c ∷ es) j ≡ some (function_field x)) [
                      | zero ↦ λ g'. ground (arith, g', t, m)
                      | suc j ↦ λ g'.
                          read_arms-handler_at (suc n) es mark w r s j x (ground (arith, g', t))
                    ]
                g
        ]
      ]

  with_start-handlers :
      (read : List (Arm E) × List ℕ) (mark : ℕ) (o : Bool × DefaultCase) (h : Hub) (c : Cases E)
      → (with_start E show name read mark o h).1 ≡ ok c
      → c.handlers ≡ read.1
  with_start-handlers ([], hs) mark (b, no_default) h c e = absurd (ground (arith, e))
  with_start-handlers ([], hs) mark (b, raw_default) h c e = ground (arith, e)
  with_start-handlers ([], hs) mark (b, handler_default f) h c e = ground (arith, e)
  with_start-handlers (a ∷ arms, hs) mark (true, d) h c e = ground (arith, e)
  with_start-handlers (a ∷ arms, hs) mark (false, d) h c e = ground (arith, e)

  pub read_cases-handler_at :
      (es : List (Entry E)) (opts : Option Opts) (h : Hub) (w : World E) (c : Cases E)
      → (read_cases E show name true es opts h w).1.1 ≡ ok c
      → (i x : ℕ) → get_elem? c.handlers i ≡ some x
      → handler_at es i ≡ some (function_field x)
  unfolding read_cases
  read_cases-handler_at es opts h w c e i x g =
      let u = new_mark E show name w in
      elim (Result-cases (read_arms E show name true 1 es w.heap.next u)) [
        | inr (y, q) ↦ absurd (ground (arith, e, q))
        | inl (read, q) ↦ elim (Result-cases (read_opts E show name true opts)) [
          | inr (y, f) ↦ absurd (ground (arith, e, q, f))
          | inl (o, f) ↦
              let k = with_start-handlers read w.heap.next o h c (ground (arith, e, q, f)) in
              read_arms-handler_at 1 es w.heap.next u read q i x
                (ap (λ l. get_elem? l i) (sym k) ∙ g)
        ]
      ]

  start_lem :
      (handlers : Bool) (read : List (Arm E) × List ℕ) (mark : ℕ) (o : Bool × DefaultCase) (h : Hub)
      (c : Cases E)
      → AreMatched handlers read.0 read.1
      → (with_start E show name read mark o h).1 ≡ ok c
      → IsRead handlers c
  start_lem handlers ([], hs) mark (b, no_default) h c m e = absurd (ground (arith, e))
  start_lem handlers ([], hs) mark (b, raw_default) h c m e = record {
    matched = ground (arith, m, e);
    starts = inr (ground (arith, e));
  }
  start_lem handlers ([], hs) mark (b, handler_default f) h c m e = record {
    matched = ground (arith, m, e);
    starts = inr (ground (arith, e));
  }
  start_lem handlers (a ∷ arms, hs) mark (true, d) h c m e = record {
    matched = ground (arith, m, e);
    starts = inl (ground (arith, e));
  }
  start_lem handlers (a ∷ arms, hs) mark (false, d) h c m e = record {
    matched = ground (arith, m, e);
    starts = inl (ground (arith, e));
  }

  pub read_cases-IsRead :
      (handlers : Bool) (es : List (Entry E)) (opts : Option Opts) (h : Hub) (w : World E)
      (c : Cases E)
      → (read_cases E show name handlers es opts h w).1.1 ≡ ok c
      → IsRead handlers c
  unfolding read_cases
  read_cases-IsRead handlers es opts h w c e =
      let u = new_mark E show name w in
      elim (Result-cases (read_arms E show name handlers 1 es w.heap.next u)) [
        | inr (x, q) ↦ absurd (ground (arith, e, q))
        | inl (read, q) ↦ elim (Result-cases (read_opts E show name handlers opts)) [
          | inr (x, g) ↦ absurd (ground (arith, e, q, g))
          | inl (o, g) ↦
              start_lem handlers read w.heap.next o h c
                (read_arms_lem handlers 1 es w.heap.next u read q) (ground (arith, e, q, g))
        ]
      ]

get_elem?_below : (xs : List ℕ) (i : ℕ) → i < length xs → (x : ℕ) × (get_elem? xs i ≡ some x)
get_elem?_below [] i l = absurd (omega (arith, l))
get_elem?_below (x ∷ xs) zero l = (x, refl)
get_elem?_below (x ∷ xs) (suc i) l = get_elem?_below xs i (omega (arith, l))

-- When `task.select` has read its cases and there is one, its polls start at one of them; and when a poll
-- of as many cases chooses the one at `i`, there is a handler at `i`, so that the look for it does not
-- fail, and it is the handler of the case at `i` of those that were read.
pub choice_has_handler :
    (E : Env) (show : ℕ → String) (name : String) (es : List (Entry E)) (opts : Option Opts)
    (h : Hub) (w : World E) (c : Cases E) (f : SelectFuture E) (p i : ℕ) (v : World E)
    (vs : Values E)
    → (read_cases E show name true es opts h w).1.1 ≡ ok c
    → length f.arms ≡ length c.arms
    → 0 < length c.arms
    → (poll f p v).2 ≡ ready (ok (i, vs))
    → (c.start < length c.arms)
      × ((x : ℕ) × (get_elem? c.handlers i ≡ some x) × (handler_at es i ≡ some (function_field x)))
choice_has_handler E show name es opts h w c f p i v vs e l pos q =
    let k = read_cases-IsRead E show name true es opts h w c e in
    let ((b, m, idle), left) = poll-HasChosen f p v i vs (omega (arith, l, pos)) q in
    let (x, g) = get_elem?_below c.handlers i (omega (arith, b, l, k.matched)) in
    (
      elim k.starts [ inl s ↦ s | inr z ↦ absurd (omega (arith, z.0, pos)) ],
      (x, g, read_cases-handler_at E show name es opts h w c e i x g),
    )
