-- ===== src/Hub/Calls.antt =====
-- src/hub.rs: which callbacks a dispatch calls.
use mathlib.Core.List.{append_assoc, append-nil}
use mlua_isle.Base.{
  ℕ, ◌+◌, ◌≡◌, ◌⊎◌, refl, sym, ap, subst, ◌%◌, ◌==◌, ltb, ◌&&◌, ◌∙◌, Bool, true, false, ◌||◌, List,
  [], ◌∷◌, ◌++◌, Result, ok, err, if◌then◌else◌, Bool-cases, inl, inr,
}
use mlua_isle.Error.Convert.{MluaError}
use mlua_isle.Hub.{
  Hub, Entry, DebugEvent, count, line, call, tail_call, ret, unknown, check_cancel, count_check,
  max_deferred, fires,
}
use mlua_isle.Hub.Dispatch.{Callbacks, set_counted, call_entries, dispatch, firing, noted, is_ok}

result_cases : {A E : Type 0} (r : Result A E) → ((a : A) × (r ≡ ok a)) ⊎ ((e : E) × (r ≡ err e))
result_cases (ok a) = inl (a, refl)
result_cases (err e) = inr (e, refl)

-- The hub once the counter of an entry is written.
abbrev counted_hub : DebugEvent → ℕ → Entry → Hub → Hub
counted_hub event step e h = record h {
  entries = set_counted e.id (fires event step e).0.counted h.entries;
}

call_skips :
    {S : Type 0} (cb : Callbacks S) (event : DebugEvent) (step : ℕ) (e : Entry) (es : List Entry)
    (y : Bool) (h : Hub) (s : S)
    → (fires event step e).1 ≡ false
    → call_entries cb event step (e ∷ es) y (h, s)
      ≡ call_entries cb event step es y (counted_hub event step e h, s)
unfolding call_entries
call_skips cb event step e es y h s f = rw (call_entries, f) refl

call_fails :
    {S : Type 0} (cb : Callbacks S) (event : DebugEvent) (step : ℕ) (e : Entry) (es : List Entry)
    (y : Bool) (h : Hub) (s : S) (x : MluaError)
    → (fires event step e).1 ≡ true
    → (cb e.id (counted_hub event step e h, s)).1 ≡ err x
    → call_entries cb event step (e ∷ es) y (h, s)
      ≡ ((cb e.id (counted_hub event step e h, s)).0, err x)
unfolding call_entries
call_fails cb event step e es y h s x f q = rw (call_entries, f, q) refl

call_goes_on :
    {S : Type 0} (cb : Callbacks S) (event : DebugEvent) (step : ℕ) (e : Entry) (es : List Entry)
    (y : Bool) (h : Hub) (s : S) (b : Bool)
    → (fires event step e).1 ≡ true
    → (cb e.id (counted_hub event step e h, s)).1 ≡ ok b
    → call_entries cb event step (e ∷ es) y (h, s)
      ≡ call_entries cb event step es (y || b) (cb e.id (counted_hub event step e h, s)).0
unfolding call_entries
call_goes_on cb event step e es y h s b f q = rw (call_entries, f, q) refl

check_cancel_entries :
    (cancelled p : Bool) (h : Hub) → (check_cancel cancelled p h).0.entries ≡ h.entries
unfolding check_cancel
check_cancel_entries false p h = refl
check_cancel_entries true p h = elim (Bool-cases (ltb h.deferred max_deferred && p)) [
  | inl e ↦ rw (check_cancel, e) refl
  | inr e ↦ rw (check_cancel, e) refl
]

count_check_entries :
    (cancelled p r : Bool) (k : ℕ) (h : Hub) → (count_check cancelled p r k h).0.entries ≡ h.entries
unfolding count_check
count_check_entries cancelled p r k h =
    let checks = (h.checks + 1) % 4294967296 in
    elim (Bool-cases (checks % k == 0)) [
      | inl e ↦
          rw (count_check, e) (check_cancel_entries cancelled p (record h { checks = checks }))
      | inr e ↦ rw (count_check, e) refl
    ]

module _ {S : Type 0} where
  -- What was called is the first part of what fires, and all of it without an error.
  abbrev Called : List ℕ → List ℕ → (Hub × (List ℕ × S)) × Result Bool MluaError → Type 0
  Called before ids (w, r) =
      (called left : List ℕ) × (w.1.0 ≡ before ++ called)
      × (ids ≡ called ++ left)
      × ((is_ok r ≡ false) ⊎ (left ≡ []))

  calls-Called :
      (cb : Callbacks S) (event : DebugEvent) (step : ℕ) (es : List Entry) (y : Bool) (h : Hub)
      (before : List ℕ) (s : S)
      → Called before
          (firing event step es)
          (call_entries (noted cb) event step es y (h, (before, s)))
  unfolding call_entries
  calls-Called cb event step [] y h before s = ([], [], sym (append-nil before), refl, inr refl)
  calls-Called cb event step (e ∷ es) y h before s =
      let cs = noted cb in
      let g = counted_hub event step e h in
      let u = cb e.id (g, s) in
      let ids = λ (b : Bool). if b then e.id ∷ firing event step es else firing event step es in
      let by =
        λ (b : Bool) (f : (fires event step e).1 ≡ b)
            (r : (Hub × (List ℕ × S)) × Result Bool MluaError)
            (q : call_entries cs event step (e ∷ es) y (h, (before, s)) ≡ r)
            (c : Called before (ids b) r).
          subst (λ z. Called before (firing event step (e ∷ es)) z) (sym q)
            (subst (λ l. Called before l r) (sym (ap ids f)) c) in
      elim (Bool-cases (fires event step e).1) [
        | inr f ↦
            by false f (call_entries cs event step es y (g, (before, s)))
              (call_skips cs event step e es y h (before, s) f)
              (calls-Called cb event step es y g before s)
        | inl f ↦ elim (result_cases u.1) [
          | inr (x, q) ↦
              by true f ((cs e.id (g, (before, s))).0, err x)
                (call_fails cs event step e es y h (before, s) x f q)
                (e.id ∷ [], firing event step es, refl, refl, inl refl)
          | inl (b, q) ↦
              let v = (cs e.id (g, (before, s))).0 in
              let (called, left, m, n, o) =
                calls-Called cb event step es (y || b) u.0.0 (before ++ e.id ∷ []) u.0.1 in
              by true f (call_entries cs event step es (y || b) v)
                (call_goes_on cs event step e es y h (before, s) b f q)
                (
                  e.id ∷ called,
                  left,
                  m ∙ append_assoc before (e.id ∷ []) called,
                  ap (λ l. e.id ∷ l) n,
                  o,
                )
        ]
      ]

  -- What a dispatch says of its calls.
  abbrev Answered : List ℕ → (Hub × (List ℕ × S)) × Result Bool MluaError → Type 0
  Answered ids (w, r) = (left : List ℕ) × (ids ≡ w.1.0 ++ left) × ((is_ok r ≡ false) ⊎ (left ≡ []))

  Called-Answered :
      (ids : List ℕ) (r : (Hub × (List ℕ × S)) × Result Bool MluaError)
      → Called [] ids r
      → Answered ids r
  Called-Answered ids r (called, left, m, n, o) = (left, n ∙ ap (λ c. c ++ left) (sym m), o)

  count_calls :
      (cb : Callbacks S) (cancelled p r : Bool) (step k : ℕ) (h : Hub) (s : S)
      → Answered
          (firing count step h.entries)
          (dispatch (noted cb) count cancelled p r step k (h, ([], s)))
  unfolding dispatch
  count_calls cb cancelled p r step k h s =
      let g = (count_check cancelled p r k h).0 in
      let yields = (count_check cancelled p r k h).2 in
      let entries = count_check_entries cancelled p r k h in
      elim (Bool-cases (count_check cancelled p r k h).1) [
        | inl e ↦ rw (dispatch, e) (firing count step h.entries, refl, inl refl)
        | inr e ↦
            let u = call_entries (noted cb) count step g.entries yields (g, ([], s)) in
            rw (dispatch, e)
              (subst (λ es. Answered (firing count step es) u) entries
                (Called-Answered (firing count step g.entries) u
                  (calls-Called cb count step g.entries yields g [] s)))
      ]

  -- A dispatch calls the callbacks of the entries that fire, in the order of their registration and each
  -- once, whatever callbacks register or remove meanwhile: all of them if the dispatch does not fail, and
  -- else the first of them.
  pub dispatch-firing :
      (cb : Callbacks S) (event : DebugEvent) (cancelled in_async_poll is_root : Bool)
      (step cancel_every : ℕ) (h : Hub) (s : S)
      → let ((u, (calls, v)), answer) =
          dispatch
            (noted cb)
            event
            cancelled
            in_async_poll
            is_root
            step
            cancel_every
            (h, ([], s)) in
        (left : List ℕ) × (firing event step h.entries ≡ calls ++ left)
        × ((is_ok answer ≡ false) ⊎ (left ≡ []))
  unfolding dispatch
  dispatch-firing cb count cancelled p r step k h s = count_calls cb cancelled p r step k h s
  dispatch-firing cb line cancelled p r step k h s =
      Called-Answered (firing line step h.entries)
        (call_entries (noted cb) line step h.entries false (h, ([], s)))
        (calls-Called cb line step h.entries false h [] s)
  dispatch-firing cb call cancelled p r step k h s =
      Called-Answered (firing call step h.entries)
        (call_entries (noted cb) call step h.entries false (h, ([], s)))
        (calls-Called cb call step h.entries false h [] s)
  dispatch-firing cb tail_call cancelled p r step k h s =
      Called-Answered (firing tail_call step h.entries)
        (call_entries (noted cb) tail_call step h.entries false (h, ([], s)))
        (calls-Called cb tail_call step h.entries false h [] s)
  dispatch-firing cb ret cancelled p r step k h s =
      Called-Answered (firing ret step h.entries)
        (call_entries (noted cb) ret step h.entries false (h, ([], s)))
        (calls-Called cb ret step h.entries false h [] s)
  dispatch-firing cb unknown cancelled p r step k h s =
      Called-Answered (firing unknown step h.entries)
        (call_entries (noted cb) unknown step h.entries false (h, ([], s)))
        (calls-Called cb unknown step h.entries false h [] s)
