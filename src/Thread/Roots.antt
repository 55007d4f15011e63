-- ===== src/Thread/Roots.antt =====
-- src/thread.rs and src/scope.rs: a sync request beside a root, and the current token.
use mlua_isle.Base.{
  ℕ, ◌≡◌, ◌⊎◌, refl, ap, Bool, true, false, List, none, some, String, Result, ok, err, inl, inr,
  Option-cases,
}
use mlua_isle.Error.{IsleError}
use mlua_isle.Error.Convert.{MluaError}
use mlua_isle.Protect.{Lua, Value, Traces, call, wrap_call, unwrap_root}
use mlua_isle.Protect.Agree.{root_agrees, values_of}
use mlua_isle.Thread.{
  Env, Vm, Run, cancelled_wins, root_answer, entered, eval_body, call_body, call_fn_body,
  execute_eval, execute_exec, execute_call, execute_call_fn,
}

abbrev IsLike : Bool → Result (List Value) IsleError → Result (List Value) IsleError → Type 0
IsLike cancelled root sync =
    (root ≡ sync)
    ⊎ ((cancelled ≡ true) × (root ≡ err IsleError.cancelled) × ((vs : List Value) × (sync ≡ ok vs)))

like_lem :
    (L : Lua) (u : String) (out : List Value) (cancelled : Bool) (r : Result (List Value) IsleError)
    → unwrap_root L u out ≡ r
    → IsLike cancelled (root_answer L u cancelled (some (ok out))) (cancelled_wins r cancelled)
unfolding root_answer cancelled_wins
like_lem L u out true (ok vs) e = inr (refl, refl, (vs, refl))
like_lem L u out true (err x) e = inl refl
like_lem L u out false (ok vs) e = inl e
like_lem L u out false (err x) e = inl e

-- A root whose body was not dropped answers as a sync call of the same function does, except where its
-- token was cancelled and the function returned: then the sync call answers with the values, and the
-- root with the cancel error.
pub root_like_sync :
    (L : Lua) (u : String) (room : Bool) (thread : ℕ)
    (xpcall : Traces → Traces × (Bool × List Value)) (traces : Traces) (cancelled : Bool)
    → let root =
        root_answer L u cancelled
          (some (ok (wrap_call L room thread (λ t. values_of (xpcall t)) traces).1)) in
      let sync =
        cancelled_wins
          (call L none room thread
            (λ t. let (a, values) = values_of (xpcall t) in (a, ok values))
            traces).1
          cancelled in
      (root ≡ sync)
      ⊎ ((cancelled ≡ true)
          × (root ≡ err IsleError.cancelled)
          × ((vs : List Value) × (sync ≡ ok vs)))
root_like_sync L u room thread xpcall traces cancelled =
    let out = (wrap_call L room thread (λ t. values_of (xpcall t)) traces).1 in
    let r =
      (call L none room thread (λ t. let (a, values) = values_of (xpcall t) in (a, ok values))
        traces).1 in
    like_lem L u out cancelled r (ap (λ p. p.1) (root_agrees L u room thread xpcall traces))

entered_current :
    {E : Env} {A : Type 0} (token : ℕ) (body : Run E A) (vm : Vm E)
    → (entered token body vm).0.current ≡ vm.current
unfolding entered
entered_current {E = E} token body vm = elim (Option-cases (E.ensure_attached vm.lua).1) [
  | inl e ↦ rw (entered, e) refl
  | inr (x, e) ↦ rw (entered, e) refl
]

-- A sync request leaves the current token of the thread as it was, whether it fails or not and wherever
-- it fails.
pub current_restored :
    {E : Env} {A : Type 0} (code name : String) (key token : ℕ) (body : Run E A)
    (args : E.State → E.State × Result E.Values MluaError) (vm : Vm E)
    → ((execute_eval code token vm).0.current ≡ vm.current)
      × ((execute_exec body token vm).0.current ≡ vm.current)
      × ((execute_call name args token vm).0.current ≡ vm.current)
      × ((execute_call_fn key args token vm).0.current ≡ vm.current)
unfolding execute_eval execute_exec execute_call execute_call_fn
current_restored {E = E} code name key token body args vm = (
  entered_current token (eval_body code token) vm,
  entered_current token body vm,
  entered_current token (call_body name args token) vm,
  entered_current token (call_fn_body key args token) vm,
)
